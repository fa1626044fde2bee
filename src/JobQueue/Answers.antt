-- ===== src/JobQueue/Answers.antt =====
-- The requests that get a result, in every interleaving.
use mathlib.Core.Path.{subst}
use go_examples.Base.{ℕ, ◌≡◌, ap, true, List, [], ◌∷◌, Option, none, some, arith, count}
use go_examples.JobQueue.Server.{results_of, Queues}
use go_examples.JobQueue.{answered, System, Event, start, step, run}
use go_examples.JobQueue.Invariant.{job_of, has, IsSound}
use go_examples.JobQueue.Steps.{Sound, step-Sound}

module _ (q : Queues) where
  open q use {Store, entries}

  onward :
      (o : Option (System q)) (es : List Event)
      → Sound q o
      → ((s : System q) → IsSound q s → Sound q (run q es s))
      → Sound q (elim o [ none ↦ none | some t ↦ run q es t ])
  onward none es h k = tt
  onward (some t) es h k = k t h

  run-Sound : (es : List Event) (s : System q) → IsSound q s → Sound q (run q es s)
  unfolding run
  run-Sound [] s h = h
  run-Sound (e ∷ es) s h = onward (step q e s) es (step-Sound q e s h) (run-Sound es)

  -- However the goroutines and the engine interleave, however often the server executes a command whose reply is
  -- lost, and whichever commands fail, a request that is answered has a delay that the engine took for the
  -- request's own job, and no other request has its identifier. The server starts without results.
  pub answers_genuine :
      (st : Store) (es : List Event) (t : System q) (i job v : ℕ)
      → ((k : ℕ) → entries (results_of k) st ≡ [])
      → run q es (start q st) ≡ some t
      → t.requests i ≡ answered job v
      → (has job v t.delays ≡ true) × ((j : ℕ) → job_of (t.requests j) ≡ some job → j ≡ i)
  answers_genuine st es t i job v f r p =
      let h : IsSound q t = subst (Sound q) r (
        run-Sound es (start q st) (record {
          bound = λ i job e. ground (arith, e);
          distinct = λ i j job e. ground (arith, e);
          at_work = λ job d e. ground (arith, e);
          genuine = λ k w l. ground (arith, ap (count w) (f k), l);
          own = λ i k w e. ground (arith, e);
        })) in
      (h.own i job v p, λ j c. h.distinct j i job c (ground (arith, p)))
