-- ===== src/WorkerPool.antt =====
-- examples/concurrency/worker-pool/main.go: the workers of the shared channels `jobs` and `results`, whose buffers
-- have room for all the jobs, and main. A step is one operation on a channel.
pub mod Accounts
pub mod Completion
mod Tests
use go_examples.Base.{
  ℕ, zero, suc, ◌+◌, ◌*◌, ◌<◌, ◌≡◌, Bool, true, false, List, [], ◌∷◌, ◌++◌, length, replicate,
}

-- Before the next job, with a job, and after the end of `jobs`.
pub data Hand : Type 0 where
  free : Hand
  working : ℕ → Hand
  returned : Hand

-- The jobs that main has still to send, the channels, and what main has printed.
pub record System : Type 0 where
  pub unsent : List ℕ
  pub jobs : List ℕ
  pub closed : Bool
  pub workers : List Hand
  pub results : List ℕ
  pub printed : List ℕ

abbrev pub doubled : ℕ → ℕ
doubled j = j * 2

-- What a worker does to the channels: `jobs`, whether it is closed, and `results`.
pub data Work (num_jobs : ℕ) : List ℕ → Bool → List ℕ → Hand → List ℕ → List ℕ → Hand → Type 0 where
  receive : {j : ℕ} {js rs : List ℕ} {c : Bool} → Work num_jobs (j ∷ js) c rs free js rs (working j)
  send :
      {j : ℕ} {js rs : List ℕ} {c : Bool}
      → length rs < num_jobs
      → Work num_jobs js c rs (working j) js (rs ++ doubled j ∷ []) free
  leave : {rs : List ℕ} → Work num_jobs [] true rs free [] rs returned

-- The worker that does it.
pub data Turn (num_jobs : ℕ) (js : List ℕ) (c : Bool) (rs js' rs' : List ℕ)
    : List Hand → List Hand → Type 0 where
  here :
      {w w' : Hand} {ws : List Hand}
      → Work num_jobs js c rs w js' rs' w'
      → Turn num_jobs js c rs js' rs' (w ∷ ws) (w' ∷ ws)
  there :
      {w : Hand} {ws ws' : List Hand}
      → Turn num_jobs js c rs js' rs' ws ws'
      → Turn num_jobs js c rs js' rs' (w ∷ ws) (w ∷ ws')

-- main sends the jobs, closes the channel, and receives as many results.
pub data Step (num_jobs : ℕ) : System → System → Type 0 where
  send_job :
      {s : System} {j : ℕ} {js : List ℕ}
      → s.unsent ≡ j ∷ js
      → length s.jobs < num_jobs
      → Step num_jobs s (record s { unsent = js; jobs = s.jobs ++ j ∷ [] })
  close_jobs :
      {s : System} → s.unsent ≡ [] → s.closed ≡ false → Step num_jobs s (record s { closed = true })
  turn :
      {s : System} {js rs : List ℕ} {ws : List Hand}
      → Turn num_jobs s.jobs s.closed s.results js rs s.workers ws
      → Step num_jobs s (record s { jobs = js; results = rs; workers = ws })
  print :
      {s : System} {r : ℕ} {rs : List ℕ}
      → s.closed ≡ true
      → length s.printed < num_jobs
      → s.results ≡ r ∷ rs
      → Step num_jobs s (record s { results = rs; printed = s.printed ++ r ∷ [] })

-- The numbers from j on, n in all.
abbrev pub numbers_from : ℕ → ℕ → List ℕ
numbers_from j zero = []
numbers_from j (suc n) = j ∷ numbers_from (suc j) n

abbrev pub init : ℕ → ℕ → System
init num_jobs num_workers = record {
  unsent = numbers_from 1 num_jobs;
  jobs = [];
  closed = false;
  workers = replicate num_workers free;
  results = [];
  printed = [];
}

-- The states that are reached in a number of steps.
pub data Reach (num_jobs num_workers : ℕ) : ℕ → System → Type 0 where
  start : Reach num_jobs num_workers 0 (init num_jobs num_workers)
  later :
      {n : ℕ} {s t : System}
      → Reach num_jobs num_workers n s
      → Step num_jobs s t
      → Reach num_jobs num_workers (suc n) t
