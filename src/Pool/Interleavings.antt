-- ===== src/Pool/Interleavings.antt =====
-- Every interleaving of the workers keeps the books of the pool.
use Prim.Native.String.{String}
use mathlib.Core.Path.{subst}
use go_examples.Base.{
  ℕ, zero, suc, ◌+◌, ◌≤◌, ◌<◌, ◌≡◌, refl, ◌⊎◌, inl, inr, Bool, true, false, List, [], ◌∷◌, Option,
  none, some, arith, ltb, ltb→lt, ◌==◌, length, if◌then◌else◌, Option-cases, Bool-cases,
}
use go_examples.Pool.{
  Pool, Event, handed, ended, new_task, new_pool, run_task, pick, hand, end_task, step, run,
}

abbrev pub elem : ℕ → List ℕ → Bool
elem i [] = false
elem i (j ∷ js) = if i == j then true else elem i js

-- What `pick` took out of a list.
abbrev Picked : List ℕ → ℕ → List ℕ → Type 0
Picked is i js =
    (length is ≡ suc (length js)) × ((j : ℕ) → elem j is ≡ (if j == i then true else elem j js))

pub pick-Picked : (k i : ℕ) (is js : List ℕ) → pick k is ≡ some (i, js) → Picked is i js
pick-Picked k i [] js h = ground arith
pick-Picked zero i (x ∷ is) js h = (ground (arith, h), λ j. ground (arith, h))
pick-Picked (suc k) i (x ∷ is) js h = elim (Option-cases (pick k is)) [
  | inl n ↦ (ground (arith, h, n), λ j. ground (arith, h, n))
  | inr ((y, ys), e) ↦
      let (len, mem) = pick-Picked k y is ys e in
      (ground (arith, h, e, len), λ j. ground (arith, h, e, mem j))
]

-- The pool of `size` tasks and `concurrency` workers, after some events.
pub record IsRunning (size : ℕ) (f : ℕ → Option String) (concurrency : ℕ) (p : Pool) : Type 0 where
  pub size_kept : p.size ≡ size
  pub sent_le : p.sent ≤ size
  pub workers : p.idle + length p.busy ≡ concurrency
  pub waits : p.wg + p.sent ≡ size + length p.busy
  pub returns_kept : (i : ℕ) → (p.tasks i).returns ≡ f i
  pub outcome : (i : ℕ) → i < p.sent → (elem i p.busy ≡ true) ⊎ ((p.tasks i).error ≡ f i)

new_pool-IsRunning :
    (size : ℕ) (f : ℕ → Option String) (concurrency : ℕ)
    → IsRunning size f concurrency (new_pool size f concurrency)
unfolding new_pool new_task
new_pool-IsRunning size f concurrency = record {
  size_kept = refl;
  sent_le = omega arith;
  workers = omega arith;
  waits = omega arith;
  returns_kept = λ i. refl;
  outcome = λ i l. ground arith;
}

unfoldable pub hand_task : ℕ → Pool → Pool
hand_task idle p = record p { sent = p.sent + 1; idle = idle; busy = p.sent ∷ p.busy }

hand-cases :
    (k : ℕ) (p p' : Pool)
    → hand k p ≡ some p'
    → (j : ℕ) × (k ≡ suc j) × (p.sent < p.size) × (hand_task j p ≡ p')
unfolding hand_task
hand-cases zero p p' h = ground arith
hand-cases (suc j) p p' h = elim (Bool-cases (ltb p.sent p.size)) [
  | inl t ↦ (j, refl, ltb→lt p.sent p.size t, ground (arith, t, h))
  | inr t ↦ ground (arith, t, h)
]

module _ (size : ℕ) (f : ℕ → Option String) (concurrency : ℕ) where
  hand-IsRunning :
      (j : ℕ) (p : Pool)
      → p.idle ≡ suc j
      → p.sent < p.size
      → IsRunning size f concurrency p
      → IsRunning size f concurrency (hand_task j p)
  unfolding hand_task
  hand-IsRunning j p e l r = record {
    size_kept = r.size_kept;
    sent_le = omega (arith, r.size_kept);
    workers = omega (arith, r.workers);
    waits = omega (arith, r.waits);
    returns_kept = r.returns_kept;
    outcome = λ i m. ground (arith, r.outcome i);
  }

  end-IsRunning :
      (k i : ℕ) (is : List ℕ) (p : Pool)
      → pick k p.busy ≡ some (i, is)
      → IsRunning size f concurrency p
      → IsRunning size f concurrency (record (run_task i p) { busy = is; idle = p.idle + 1 })
  unfolding run_task
  end-IsRunning k i is p e r =
      let (len, mem) = pick-Picked k i p.busy is e in
      record {
        size_kept = r.size_kept;
        sent_le = r.sent_le;
        workers = omega (arith, r.workers, len);
        waits = omega (arith, r.waits, len, r.sent_le);
        returns_kept = λ j. ground (arith, r.returns_kept j);
        outcome = λ j m. ground (arith, r.outcome j m, mem j, r.returns_kept j);
      }

end-cases :
    (p p' : Pool) (o : Option (ℕ × List ℕ))
    → end_task p o ≡ some p'
    → (i : ℕ) × (is : List ℕ) × (o ≡ some (i, is))
      × (record (run_task i p) { busy = is; idle = p.idle + 1 } ≡ p')
end-cases p p' none h = ground arith
end-cases p p' (some (i, is)) h = (i, is, refl, ground (arith, h))

pub step-cases :
    (e : Event) (p p' : Pool)
    → step e p ≡ some p'
    → ((j : ℕ) × (p.idle ≡ suc j) × (p.sent < p.size) × (hand_task j p ≡ p'))
      ⊎ ((k : ℕ) × (i : ℕ) × (is : List ℕ) × (pick k p.busy ≡ some (i, is))
          × (record (run_task i p) { busy = is; idle = p.idle + 1 } ≡ p'))
unfolding step
step-cases handed p p' h = inl (hand-cases p.idle p p' h)
step-cases (ended k) p p' h =
    let (i, is, t, q) = end-cases p p' (pick k p.busy) h in inr (k, i, is, t, q)

pub run-step :
    (e : Event) (es : List Event) (p p' : Pool)
    → run (e ∷ es) p ≡ some p'
    → (q : Pool) × (step e p ≡ some q) × (run es q ≡ some p')
unfolding run
run-step e es p p' h = elim (Option-cases (step e p)) [
  | inl n ↦ ground (arith, n, h)
  | inr (q, s) ↦ (q, s, ground (arith, s, h))
]

module _ (size : ℕ) (f : ℕ → Option String) (concurrency : ℕ) where
  step-IsRunning :
      (e : Event) (p p' : Pool)
      → step e p ≡ some p'
      → IsRunning size f concurrency p
      → IsRunning size f concurrency p'
  step-IsRunning e p p' h r = elim (step-cases e p p' h) [
    | inl (j, i, l, q) ↦
        subst (IsRunning size f concurrency) q (hand-IsRunning size f concurrency j p i l r)
    | inr (k, i, is, t, q) ↦
        subst (IsRunning size f concurrency) q (end-IsRunning size f concurrency k i is p t r)
  ]

  from-IsRunning :
      (es : List Event) (p p' : Pool)
      → run es p ≡ some p'
      → IsRunning size f concurrency p
      → IsRunning size f concurrency p'
  unfolding run
  from-IsRunning [] p p' h r = subst (IsRunning size f concurrency) (ground (arith, h)) r
  from-IsRunning (e ∷ es) p p' h r =
      let (q, s, t) = run-step e es p p' h in from-IsRunning es q p' t (step-IsRunning e p q s r)

  -- After any interleaving of the workers each task is either not yet sent, or with one of at most
  -- `concurrency` busy workers, or has its Err set to what its function returned; the WaitGroup
  -- counts the tasks of the first two kinds.
  pub run-IsRunning :
      (es : List Event) (p : Pool)
      → run es (new_pool size f concurrency) ≡ some p
      → IsRunning size f concurrency p
  run-IsRunning es p h =
      from-IsRunning es (new_pool size f concurrency) p h (new_pool-IsRunning size f concurrency)
