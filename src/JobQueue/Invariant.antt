-- ===== src/JobQueue/Invariant.antt =====
-- Every request has an identifier of its own, and every result is a delay of its job.
use go_examples.Base.{
  ℕ, ◌==◌, ==_iff, ◌≤◌, ◌<◌, ◌≡◌, inl, inr, Bool, true, false, List, [], ◌∷◌, Option, none, some,
  if◌then◌else◌, arith, count, Bool-cases,
}
use go_examples.JobQueue.Server.{counter_key, results_of, Queues}
use go_examples.JobQueue.{
  Request, ready, numbered, queued, answered, refused, working, System, set_request,
}

abbrev pub job_of : Request → Option ℕ
job_of ready = none
job_of (numbered id) = some id
job_of (queued id) = some id
job_of (answered id v) = some id
job_of refused = none

-- The engine took the delay for the job.
abbrev pub has : ℕ → ℕ → List (ℕ × ℕ) → Bool
has job v [] = false
has job v ((j, d) ∷ ds) = if j == job then (if d == v then true else has job v ds) else has job v ds

module _ (q : Queues) where
  open q use {counter, entries}

  pub record IsSound (s : System q) : Type 0 where
    pub bound : (i job : ℕ) → job_of (s.requests i) ≡ some job → job ≤ counter counter_key s.store
    pub distinct :
        (i j job : ℕ) → job_of (s.requests i) ≡ some job → job_of (s.requests j) ≡ some job → i ≡ j
    pub at_work : (job d : ℕ) → s.engine ≡ working job d → has job d s.delays ≡ true
    pub genuine :
        (job v : ℕ) → 0 < count v (entries (results_of job) s.store) → has job v s.delays ≡ true
    pub own : (i job v : ℕ) → s.requests i ≡ answered job v → has job v s.delays ≡ true

  pub set_request-IsSound :
      (i : ℕ) (r : Request) (s : System q)
      → IsSound s
      → ((job : ℕ) → job_of r ≡ some job → job ≤ counter counter_key s.store)
      → ((j job : ℕ) → job_of r ≡ some job → job_of (s.requests j) ≡ some job → j ≡ i)
      → ((job v : ℕ) → r ≡ answered job v → has job v s.delays ≡ true)
      → IsSound (set_request q i r s)
  set_request-IsSound i r s h b d o = record {
    bound = λ j job e. elim (Bool-cases (j == i)) [
      | inl t ↦ ground (arith, t, b job, e)
      | inr t ↦ ground (arith, t, h.bound j job, e)
    ];
    distinct = λ j k job e f. elim (Bool-cases (j == i)) [
      | inl t ↦ elim (Bool-cases (k == i)) [
        | inl z ↦ ground (arith, ==_iff j i, ==_iff k i, t, z)
        | inr z ↦ ground (arith, ==_iff j i, t, z, e, f, d k job)
      ]
      | inr t ↦ elim (Bool-cases (k == i)) [
        | inl z ↦ ground (arith, ==_iff k i, t, z, e, f, d j job)
        | inr z ↦ ground (arith, t, z, e, f, h.distinct j k job)
      ]
    ];
    at_work = h.at_work;
    genuine = h.genuine;
    own = λ j job v e. elim (Bool-cases (j == i)) [
      | inl t ↦ ground (arith, t, o job v, e)
      | inr t ↦ ground (arith, t, h.own j job v, e)
    ];
  }

  -- The refusal of a request, and its wait for the result.
  pub refuse-IsSound : (i : ℕ) (s : System q) → IsSound s → IsSound (set_request q i refused s)
  refuse-IsSound i s h =
      set_request-IsSound i refused s h (λ job e. ground (arith, e)) (λ j job e. ground (arith, e))
        (λ job v e. ground (arith, e))
