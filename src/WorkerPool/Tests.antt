-- ===== src/WorkerPool/Tests.antt =====
-- One job and one worker, up to the last result, and the theorem there.
use go_examples.Base.{ℕ, ◌*◌, ◌≤◌, ◌≡◌, ◌⊎◌, refl, true, [], ◌∷◌, count, map, arith}
use go_examples.WorkerPool.{
  free, working, System, receive, send, here, Step, send_job, close_jobs, turn, print, numbers_from,
  init, Reach, start, later,
}
use go_examples.WorkerPool.Completion.{all_results}

abbrev taken : System
taken = record (init 1 1) { unsent = []; closed = true; workers = working 1 ∷ [] }

taken-Reach : Reach 1 1 3 taken
taken-Reach =
    later (later (later start (send_job refl (omega arith))) (close_jobs refl refl))
      (turn (here receive))

abbrev printed_two : System
printed_two = record taken { workers = free ∷ []; printed = 2 ∷ [] }

printed_two-Reach : Reach 1 1 5 printed_two
printed_two-Reach =
    later (later taken-Reach (turn (here (send (omega arith))))) (print refl (omega arith) refl)

all_results_example :
    (5 ≤ 6)
    × (((t : System) × Step 1 printed_two t)
        ⊎ ((v : ℕ) → count v (2 ∷ []) ≡ count v (map (λ j. j * 2) (numbers_from 1 1))))
all_results_example = all_results (omega arith) printed_two-Reach
