-- ===== src/FanOut/Tests.antt =====
-- Two workers, one of which times out, and the theorem at that run.
use go_examples.Base.{ℕ, ◌≡◌, ◌≤◌, refl, true, false, List, [], ◌∷◌, none, some, count}
use go_examples.FanOut.{
  finished, late_ready, FanOutState, Choice, inner_sends, done_selected, timeout_selected,
  race_step, step, run, start, workers_from, timed_out_count,
}
use go_examples.FanOut.Collected.{out_collects, out_fits, answer_ids, worker_ids, late_count}

-- The inner goroutine of worker 1 sends after the timeout, to the buffer that nobody reads.
abbrev race : List (ℕ × Choice)
race = (1, inner_sends) ∷ (0, timeout_selected) ∷ (1, done_selected) ∷ (0, inner_sends) ∷ []

abbrev over : FanOutState
over = record {
  workers = record { id = 1; race = late_ready } ∷ record { id = 2; race = finished } ∷ [];
  out = record { id = 1; timed_out = true } ∷ record { id = 2; timed_out = false } ∷ [];
}

race-run : run race (start 2) ≡ some over
unfolding run step start race_step
race-run = refl

-- A worker answers once.
again-run : run ((1, done_selected) ∷ []) over ≡ none
unfolding run step race_step
again-run = refl

out_collects_example :
    (count 2 (answer_ids over.out) ≡ count 2 (worker_ids (workers_from 1 2)))
    × (timed_out_count over.out ≡ late_count over.workers)
out_collects_example = out_collects 2 race over 2 race-run refl

two_fit : 2 ≤ 2
two_fit = out_fits 2 race over race-run
