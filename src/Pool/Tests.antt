-- ===== src/Pool/Tests.antt =====
-- Two workers on three tasks, of which the second fails; and a pool without workers.
use Prim.Native.String.{String}
use go_examples.Base.{
  ℕ, ◌≤◌, ◌<◌, ◌≡◌, refl, true, false, List, [], ◌∷◌, Option, none, some, arith, ◌==◌,
  if◌then◌else◌,
}
use go_examples.Pool.{
  Pool, Event, handed, ended, new_task, new_pool, run_task, step, run, has_errors, returned,
}
use go_examples.Pool.Interleavings.{IsRunning, run-IsRunning}
use go_examples.Pool.Progress.{run_outcome, run_terminates}

abbrev results : ℕ → Option String
results i = if i == 1 then some "boom" else none

abbrev events : List Event
events = handed ∷ handed ∷ ended 1 ∷ handed ∷ ended 1 ∷ ended 0 ∷ []

abbrev final : Pool
final = record {
  size = 3;
  tasks = (run_task 2 (run_task 1 (run_task 0 (new_pool 3 results 2)))).tasks;
  sent = 3;
  idle = 2;
  busy = [];
  wg = 0;
}

run-events : run events (new_pool 3 results 2) ≡ some final
unfolding run step run_task new_pool new_task
run-events = refl

run-IsRunning_instance : IsRunning 3 results 2 final
run-IsRunning_instance = run-IsRunning 3 results 2 events final run-events

run_outcome_example :
    ((i : ℕ) → i < 3 → (final.tasks i).error ≡ results i) × (has_errors final ≡ true)
run_outcome_example = run_outcome 3 results 2 events final run-events refl

run_terminates_example :
    (6 ≤ 6) × (returned final ≡ false → (e : Event) × (q : Pool) × (step e final ≡ some q))
run_terminates_example = run_terminates 3 results 2 events final (omega arith) run-events

-- Without a worker the first send never happens.
no_workers : step handed (new_pool 3 results 0) ≡ none
unfolding step new_pool
no_workers = refl
