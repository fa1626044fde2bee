-- ===== src/Shutdown.antt =====
-- examples/graceful-shutdown-signals/main.go: the workers, main and the signal, interleaved. A step is one choice of
-- a select, or the end of a worker's last job. After `run` returns the process is over.
pub mod Progress
pub mod Endings
mod Tests
use go_examples.Base.{
  ℕ, zero, suc, ◌+◌, Bool, true, false, List, [], ◌∷◌, Option, none, some, Result, ok, err,
  if◌then◌else◌, replicate,
}

-- A worker in its loop, with its last job after the cancellation, and returned.
pub data Worker : Type 0 where
  working draining stopped : Worker

pub data ShutdownError : Type 0 where
  shutdown_timed_out : ShutdownError

pub data Main : Type 0 where
  awaiting_signal awaiting_workers : Main
  ended : Result ShutdownError (Unit {0}) → Main

pub record Process : Type 0 where
  pub cancelled : Bool
  pub workers : List Worker
  pub main : Main

pub data WorkerEvent : Type 0 where
  job_done shutdown_seen drained : WorkerEvent

pub data Event : Type 0 where
  signalled signal_seen workers_done timed_out : Event
  at : ℕ → WorkerEvent → Event

-- `worker`: the select may take a job even when the context is cancelled.
unfoldable pub worker_step : Bool → WorkerEvent → Worker → Option Worker
worker_step cancelled job_done working = some working
worker_step true shutdown_seen working = some draining
worker_step false shutdown_seen working = none
worker_step cancelled drained draining = some stopped
worker_step cancelled job_done draining = none
worker_step cancelled shutdown_seen draining = none
worker_step cancelled drained working = none
worker_step cancelled e stopped = none

abbrev pub worker_at : Bool → ℕ → WorkerEvent → List Worker → Option (List Worker)
worker_at cancelled k e [] = none
worker_at cancelled zero e (w ∷ ws) = elim (worker_step cancelled e w) [
  | none ↦ none
  | some v ↦ some (v ∷ ws)
]
worker_at cancelled (suc k) e (w ∷ ws) = elim (worker_at cancelled k e ws) [
  | none ↦ none
  | some vs ↦ some (w ∷ vs)
]

-- What `wg.Wait` waits for.
abbrev pub all_stopped : List Worker → Bool
all_stopped [] = true
all_stopped (stopped ∷ ws) = all_stopped ws
all_stopped (working ∷ ws) = false
all_stopped (draining ∷ ws) = false

unfoldable pub start : ℕ → Process
start n = record { cancelled = false; workers = replicate n working; main = awaiting_signal }

abbrev pub see_signal : Bool → Main → Option Main
see_signal true awaiting_signal = some awaiting_workers
see_signal false awaiting_signal = none
see_signal c awaiting_workers = none
see_signal c (ended r) = none

abbrev pub see_done : Bool → Main → Option Main
see_done true awaiting_workers = some (ended (ok tt))
see_done false awaiting_workers = none
see_done s awaiting_signal = none
see_done s (ended r) = none

abbrev pub see_timeout : Main → Option Main
see_timeout awaiting_workers = some (ended (err shutdown_timed_out))
see_timeout awaiting_signal = none
see_timeout (ended r) = none

abbrev pub is_running : Main → Bool
is_running awaiting_signal = true
is_running awaiting_workers = true
is_running (ended r) = false

abbrev pub with_main : Process → Option Main → Option Process
with_main p none = none
with_main p (some m) = some (record p { main = m })

abbrev pub with_workers : Process → Option (List Worker) → Option Process
with_workers p none = none
with_workers p (some ws) = some (record p { workers = ws })

unfoldable pub step : Event → Process → Option Process
unfolding worker_step
step signalled p = if is_running p.main then some (record p { cancelled = true }) else none
step signal_seen p = with_main p (see_signal p.cancelled p.main)
step workers_done p = with_main p (see_done (all_stopped p.workers) p.main)
step timed_out p = with_main p (see_timeout p.main)
step (at k e) p =
    if is_running p.main then with_workers p (worker_at p.cancelled k e p.workers) else none

unfoldable pub run : List Event → Process → Option Process
unfolding step
run [] p = some p
run (e ∷ es) p = elim (step e p) [ none ↦ none | some q ↦ run es q ]
