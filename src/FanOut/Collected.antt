-- ===== src/FanOut/Collected.antt =====
-- What main collects, in every interleaving.
use mathlib.Core.Path.{subst}
use go_examples.Base.{
  ℕ, zero, suc, ◌+◌, ◌≤◌, ◌≡◌, refl, sym, ap, ◌∙◌, Bool, true, false, List, [], ◌∷◌, ◌++◌, Option,
  none, some, if◌then◌else◌, arith, length, count, length-append,
}
use go_examples.FanOut.{
  Answer, Race, asleep, ready, finished, late, late_ready, FanOutWorker, FanOutState, Choice,
  inner_sends, done_selected, timeout_selected, race_step, moved, behind, race_at, sent, step, run,
  workers_from, start, is_answered, all_answered, timed_out_count,
}

abbrev pub is_late : Race → Bool
is_late late = true
is_late late_ready = true
is_late _ = false

abbrev pub answer_ids : List Answer → List ℕ
answer_ids [] = []
answer_ids (a ∷ rest) = a.id ∷ answer_ids rest

abbrev pub worker_ids : List FanOutWorker → List ℕ
worker_ids [] = []
worker_ids (w ∷ ws) = w.id ∷ worker_ids ws

-- The workers that have sent their answer.
abbrev pub answered_ids : List FanOutWorker → List ℕ
answered_ids [] = []
answered_ids (w ∷ ws) = if is_answered w.race then w.id ∷ answered_ids ws else answered_ids ws

abbrev pub late_count : List FanOutWorker → ℕ
late_count [] = 0
late_count (w ∷ ws) = (if is_late w.race then 1 else 0) + late_count ws

-- One step adds to `out` what the workers' states say.
abbrev Adds : List FanOutWorker → Option (List FanOutWorker × List Answer) → Type 0
Adds ws none = Unit
Adds ws (some (vs, a)) =
    ((v : ℕ) → count v (answered_ids vs) ≡ count v (answered_ids ws) + count v (answer_ids a))
    × (late_count vs ≡ late_count ws + timed_out_count a)
    × (length (answered_ids vs) ≡ length (answered_ids ws) + length a)
    × (worker_ids vs ≡ worker_ids ws)

moved-Adds :
    (c : Choice) (r : Race) (id : ℕ) (ws : List FanOutWorker)
    → Adds
        (record { id = id; race = r } ∷ ws)
        (moved (record { id = id; race = r }) ws (race_step c r))
unfolding race_step
moved-Adds inner_sends asleep id ws = ground arith
moved-Adds inner_sends late id ws = ground arith
moved-Adds inner_sends ready id ws = tt
moved-Adds inner_sends finished id ws = tt
moved-Adds inner_sends late_ready id ws = tt
moved-Adds done_selected ready id ws = ground arith
moved-Adds done_selected asleep id ws = tt
moved-Adds done_selected late id ws = tt
moved-Adds done_selected finished id ws = tt
moved-Adds done_selected late_ready id ws = tt
moved-Adds timeout_selected asleep id ws = ground arith
moved-Adds timeout_selected ready id ws = ground arith
moved-Adds timeout_selected late id ws = tt
moved-Adds timeout_selected finished id ws = tt
moved-Adds timeout_selected late_ready id ws = tt

behind-Adds :
    (w : FanOutWorker) (ws : List FanOutWorker) (o : Option (List FanOutWorker × List Answer))
    → Adds ws o
    → Adds (w ∷ ws) (behind w o)
behind-Adds w ws none h = tt
behind-Adds w ws (some (vs, a)) (c, l, n, i) =
    (λ v. ground (arith, c v), omega (arith, l), ground (arith, n), ap (λ is. w.id ∷ is) i)

race_at-Adds : (k : ℕ) (c : Choice) (ws : List FanOutWorker) → Adds ws (race_at k c ws)
race_at-Adds k c [] = tt
race_at-Adds zero c (w ∷ ws) = moved-Adds c w.race w.id ws
race_at-Adds (suc k) c (w ∷ ws) = behind-Adds w ws (race_at k c ws) (race_at-Adds k c ws)

answer_ids-append :
    (v : ℕ) (xs ys : List Answer)
    → count v (answer_ids (xs ++ ys)) ≡ count v (answer_ids xs) + count v (answer_ids ys)
answer_ids-append v [] ys = omega arith
answer_ids-append v (x ∷ xs) ys = omega (arith, answer_ids-append v xs ys)

timed_out_count-append :
    (xs ys : List Answer) → timed_out_count (xs ++ ys) ≡ timed_out_count xs + timed_out_count ys
timed_out_count-append [] ys = omega arith
timed_out_count-append (x ∷ xs) ys = omega (arith, timed_out_count-append xs ys)

module _ (ids : List ℕ) where
  -- `out` has what the answered workers sent.
  record IsCollecting (s : FanOutState) : Type 0 where
    collected : (v : ℕ) → count v (answer_ids s.out) ≡ count v (answered_ids s.workers)
    counted : timed_out_count s.out ≡ late_count s.workers
    sized : length s.out ≡ length (answered_ids s.workers)
    same_workers : worker_ids s.workers ≡ ids

  abbrev Collecting : Option FanOutState → Type 0
  Collecting none = Unit
  Collecting (some s) = IsCollecting s

  sent-Collecting :
      (s : FanOutState) (o : Option (List FanOutWorker × List Answer))
      → IsCollecting s
      → Adds s.workers o
      → Collecting (sent s o)
  sent-Collecting s none h a = tt
  sent-Collecting s (some (ws, a)) h (c, l, n, i) = record {
    collected = λ v. omega (arith, c v, h.collected v, answer_ids-append v s.out a);
    counted = omega (arith, l, h.counted, timed_out_count-append s.out a);
    sized = omega (arith, n, h.sized, length-append s.out a);
    same_workers = i ∙ h.same_workers;
  }

  step-Collecting : (e : ℕ × Choice) (s : FanOutState) → IsCollecting s → Collecting (step e s)
  unfolding step
  step-Collecting (k, c) s h =
      sent-Collecting s (race_at k c s.workers) h (race_at-Adds k c s.workers)

  onward :
      (o : Option FanOutState) (es : List (ℕ × Choice))
      → Collecting o
      → ((s : FanOutState) → IsCollecting s → Collecting (run es s))
      → Collecting (elim o [ none ↦ none | some s ↦ run es s ])
  onward none es h k = tt
  onward (some s) es h k = k s h

  run-Collecting :
      (es : List (ℕ × Choice)) (s : FanOutState) → IsCollecting s → Collecting (run es s)
  unfolding run
  run-Collecting [] s h = h
  run-Collecting (e ∷ es) s h = onward (step e s) es (step-Collecting e s h) (run-Collecting es)

none_answered :
    (i n : ℕ) → (answered_ids (workers_from i n) ≡ []) × (late_count (workers_from i n) ≡ 0)
none_answered i zero = (refl, refl)
none_answered i (suc n) = ground (arith, none_answered (suc i) n)

every_answered : (ws : List FanOutWorker) → all_answered ws ≡ true → answered_ids ws ≡ worker_ids ws
every_answered [] h = refl
every_answered (w ∷ ws) h = ground (arith, h, every_answered ws)

answered_shorter : (ws : List FanOutWorker) → length (answered_ids ws) ≤ length (worker_ids ws)
answered_shorter [] = omega arith
answered_shorter (w ∷ ws) = ground (arith, answered_shorter ws)

length-worker_ids : (i n : ℕ) → length (worker_ids (workers_from i n)) ≡ n
length-worker_ids i zero = refl
length-worker_ids i (suc n) = omega (arith, length-worker_ids (suc i) n)

run-IsCollecting :
    (n : ℕ) (es : List (ℕ × Choice)) (s : FanOutState)
    → run es (start n) ≡ some s
    → IsCollecting (worker_ids (workers_from 1 n)) s
unfolding start
run-IsCollecting n es s h =
    let (e, l) = none_answered 1 n in
    let ids = worker_ids (workers_from 1 n) in
    subst (Collecting ids) h (
      run-Collecting ids es (start n) (record {
        collected = λ v. sym (ap (count v) e);
        counted = sym l;
        sized = sym (ap length e);
        same_workers = refl;
      }))

-- No worker blocks on `out`: it never has more answers than its buffer holds.
pub out_fits :
    (n : ℕ) (es : List (ℕ × Choice)) (s : FanOutState)
    → run es (start n) ≡ some s
    → length s.out ≤ n
out_fits n es s h =
    let k = run-IsCollecting n es s h in
    omega
      (arith, k.sized, answered_shorter s.workers, ap length k.same_workers, length-worker_ids 1 n)

-- However the workers, their inner goroutines and the timeouts interleave, when every worker is done `out` has
-- the answers of the workers 1, ..., n, one of each, and as many sentinels as workers timed out.
pub out_collects :
    (n : ℕ) (es : List (ℕ × Choice)) (s : FanOutState) (v : ℕ)
    → run es (start n) ≡ some s
    → all_answered s.workers ≡ true
    → (count v (answer_ids s.out) ≡ count v (worker_ids (workers_from 1 n)))
      × (timed_out_count s.out ≡ late_count s.workers)
out_collects n es s v h a =
    let k = run-IsCollecting n es s h in
    (k.collected v ∙ ap (count v) (every_answered s.workers a ∙ k.same_workers), k.counted)
