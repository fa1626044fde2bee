-- ===== src/Pool/Progress.antt =====
-- `Run` returns, and what the tasks and HasErrors say then.
use Prim.Native.String.{String}
use go_examples.Base.{
  ℕ, zero, suc, ◌+◌, ◌*◌, ◌≤◌, ◌<◌, ◌≡◌, refl, ap, ◌∙◌, ◌⊎◌, inl, inr, Bool, true, false, List, [],
  ◌∷◌, Option, some, arith, is_some, length, if◌then◌else◌,
}
use go_examples.Pool.{
  Task, Pool, Event, handed, ended, new_pool, run_task, step, run, has_errors_below, has_errors,
  returned,
}
use go_examples.Pool.Interleavings.{
  IsRunning, elem, run-IsRunning, hand_task, step-cases, run-step, pick-Picked,
}

abbrev pub any_fails : (ℕ → Option String) → ℕ → Bool
any_fails f zero = false
any_fails f (suc n) = if is_some (f 0) then true else any_fails (λ i. f (suc i)) n

has_errors_below-any_fails :
    (n : ℕ) (tasks : ℕ → Task) (f : ℕ → Option String)
    → ((i : ℕ) → i < n → (tasks i).error ≡ f i)
    → has_errors_below n tasks ≡ any_fails f n
unfolding has_errors_below
has_errors_below-any_fails zero tasks f h = refl
has_errors_below-any_fails (suc n) tasks f h = ground (
  arith,
  h 0 (omega arith),
  has_errors_below-any_fails n (λ i. tasks (suc i)) (λ i. f (suc i))
      (λ i l. h (suc i) (omega arith)),
)

no_busy : (is : List ℕ) → length is ≡ 0 → (i : ℕ) → elem i is ≡ false
no_busy [] h i = refl
no_busy (j ∷ is) h i = ground (arith, h)

-- When `Run` returns, whatever the interleaving, every task has its Err set to what its function
-- returned, and HasErrors tells whether some function returned an error.
pub run_outcome :
    (size : ℕ) (f : ℕ → Option String) (concurrency : ℕ) (es : List Event) (p : Pool)
    → run es (new_pool size f concurrency) ≡ some p
    → returned p ≡ true
    → ((i : ℕ) → i < size → (p.tasks i).error ≡ f i) × (has_errors p ≡ any_fails f size)
unfolding has_errors
run_outcome size f concurrency es p h t =
    let r = run-IsRunning size f concurrency es p h in
    let done : (p.sent ≡ p.size) × (p.wg ≡ 0) = ground (arith, t) in
    let errors : (i : ℕ) → i < size → (p.tasks i).error ≡ f i = λ i l. ground (
      arith,
      r.outcome i (omega (arith, r.size_kept, done)),
      no_busy p.busy (omega (arith, r.size_kept, r.waits, done)) i,
    ) in
    (
      errors,
      ap (λ n. has_errors_below n p.tasks) r.size_kept
          ∙ has_errors_below-any_fails size p.tasks f errors,
    )

head_picked :
    (i : ℕ) (is : List ℕ) (p : Pool) → p.busy ≡ i ∷ is → (q : Pool) × (step (ended 0) p ≡ some q)
unfolding step
head_picked i is p h = (record (run_task i p) { busy = is; idle = p.idle + 1 }, ground (arith, h))

hand_next :
    (j : ℕ) (p : Pool) → p.idle ≡ suc j → p.sent < p.size → step handed p ≡ some (hand_task j p)
unfolding step hand_task
hand_next j p h l = ground (arith, h, l)

List-cases : (is : List ℕ) → (is ≡ []) ⊎ ((i : ℕ) × (js : List ℕ) × (is ≡ i ∷ js))
List-cases [] = inl refl
List-cases (i ∷ js) = inr (i, js, refl)

-- With a worker or more there is no deadlock: until `Run` returns some event can happen.
progress :
    (size : ℕ) (f : ℕ → Option String) (concurrency : ℕ) (p : Pool)
    → 0 < concurrency
    → IsRunning size f concurrency p
    → returned p ≡ false
    → (e : Event) × (q : Pool) × (step e p ≡ some q)
progress size f (suc c) p l r h = elim (List-cases p.busy) [
  | inr (i, js, b) ↦ let (q, s) = head_picked i js p b in (ended 0, q, s)
  | inl b ↦
      let idle : p.idle ≡ suc c = ground (arith, r.workers, b) in
      let left : p.sent < p.size = ground (arith, r.waits, r.sent_le, r.size_kept, b, h) in
      (handed, hand_task c p, hand_next c p idle left)
]
progress size f zero p l r h = ground arith

event_count :
    (e : Event) (p q : Pool)
    → step e p ≡ some q
    → 1 + length q.busy + 2 * p.sent ≡ 2 * q.sent + length p.busy
unfolding hand_task run_task
event_count e p q h = elim (step-cases e p q h) [
  | inl (j, i, l, w) ↦ ground (arith, ap (λ x. x.sent) w, ap (λ x. length x.busy) w)
  | inr (k, i, is, t, w) ↦
      ground (arith, ap (λ x. x.sent) w, ap (λ x. length x.busy) w, (pick-Picked k i p.busy is t).0)
]

events_count :
    (es : List Event) (p q : Pool)
    → run es p ≡ some q
    → length es + length q.busy + 2 * p.sent ≡ 2 * q.sent + length p.busy
unfolding run
events_count [] p q h =
    let e : p ≡ q = ground (arith, h) in
    omega (arith, ap (λ x. x.sent) e, ap (λ x. length x.busy) e)
events_count (e ∷ es) p q h =
    let (x, s, t) = run-step e es p q h in omega (arith, event_count e p x s, events_count es x q t)

-- `Run` returns, if the pool has a worker: no interleaving has more than two events for each task,
-- and as long as `Run` has not returned another event can happen.
pub run_terminates :
    (size : ℕ) (f : ℕ → Option String) (concurrency : ℕ) (es : List Event) (p : Pool)
    → 0 < concurrency
    → run es (new_pool size f concurrency) ≡ some p
    → (length es ≤ 2 * size) × (returned p ≡ false → (e : Event) × (q : Pool) × (step e p ≡ some q))
unfolding new_pool
run_terminates size f concurrency es p l h =
    let r = run-IsRunning size f concurrency es p h in
    (
      omega (arith, events_count es (new_pool size f concurrency) p h, r.sent_le),
      progress size f concurrency p l r,
    )
