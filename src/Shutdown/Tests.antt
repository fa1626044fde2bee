-- ===== src/Shutdown/Tests.antt =====
-- A clean shutdown and one that times out, and the theorems at these runs.
use go_examples.Base.{◌≡◌, refl, true, false, List, [], ◌∷◌, some, ok, err}
use go_examples.Shutdown.{
  working, draining, stopped, awaiting_workers, ended, Process, job_done, shutdown_seen, drained,
  Event, signalled, signal_seen, workers_done, timed_out, at, worker_step, all_stopped, start, step,
  run, shutdown_timed_out,
}
use go_examples.Shutdown.Progress.{EndsIn}
use go_examples.Shutdown.Endings.{clean_exit, shutdown_ends, all_working}

-- Worker 0 takes one more job after the signal.
abbrev clean : List Event
clean =
    at 1 job_done
    ∷ signalled
    ∷ at 0 job_done
    ∷ at 0 shutdown_seen
    ∷ signal_seen
    ∷ at 1 shutdown_seen
    ∷ at 1 drained
    ∷ at 0 drained
    ∷ workers_done
    ∷ []

abbrev closed : Process
closed = record { cancelled = true; workers = stopped ∷ stopped ∷ []; main = ended (ok tt) }

clean-run : run clean (start 2) ≡ some closed
unfolding run step start worker_step
clean-run = refl

abbrev hanging : Process
hanging = record { cancelled = true; workers = draining ∷ working ∷ []; main = awaiting_workers }

hanging-run : run (signalled ∷ signal_seen ∷ at 0 shutdown_seen ∷ []) (start 2) ≡ some hanging
unfolding run step start worker_step
hanging-run = refl

late-run :
    run (timed_out ∷ []) hanging ≡ some (record hanging { main = ended (err shutdown_timed_out) })
unfolding run step
late-run = refl

clean_exit_example :
    (closed.main ≡ ended (ok tt) → (true ≡ true) × (all_stopped closed.workers ≡ true))
    × (closed.cancelled ≡ false → all_working closed.workers ≡ true)
clean_exit_example = clean_exit 2 clean closed clean-run

shutdown_ends_instance : EndsIn 4 hanging
shutdown_ends_instance = shutdown_ends hanging refl refl
