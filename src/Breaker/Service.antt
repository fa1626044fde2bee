-- ===== src/Breaker/Service.antt =====
-- examples/circuit-breaker/main.go: the flaky service, `attempt`, and runs of attempts. The two
-- clock readings of an attempt (in `allow` and in `record`) are its arguments.
pub mod Runs
use go_examples.Base.{
  ℕ, suc, ◌+◌, Bool, true, false, not, List, [], ◌∷◌, Option, none, some, if◌then◌else◌,
}
use go_examples.Breaker.{
  Breaker, State, DoError, refused, failed, err_open, unknown_state, new, do_call,
}

pub record FlakyService : Type 0 where
  pub healthy : Bool
  pub calls : ℕ

pub data Unavailable : Type 0 where
  err_unavailable : Unavailable

unfoldable pub call : FlakyService → FlakyService × Option Unavailable
call s =
    let s' = record s { calls = s.calls + 1 } in
    if not s'.healthy then (s', some err_unavailable) else (s', none)

pub record World : Type 0 where
  pub breaker : Breaker
  pub service : FlakyService

-- What `attempt` prints.
pub data Report : Type 0 where
  ok_report short_circuited downstream_error : Report

abbrev report : Option (DoError Unavailable) → Report
report none = ok_report
report (some (refused err_open)) = short_circuited
report (some (refused (unknown_state s))) = downstream_error
report (some (failed e)) = downstream_error

unfoldable pub attempt : ℕ → ℕ → World → World × Report
unfolding do_call call
attempt now later w =
    let (b, s, e) = do_call call now later w.breaker w.service in
    (record { breaker = b; service = s }, report e)

-- Attempts one after another, each with its clock readings.
unfoldable pub attempts : List (ℕ × ℕ) → World → World × List Report
attempts [] w = (w, [])
attempts ((now, later) ∷ ts) w =
    let (w', r) = attempt now later w in let (w'', rs) = attempts ts w' in (w'', r ∷ rs)

unfoldable pub set_healthy : Bool → World → World
set_healthy h w = record w { service = record (w.service) { healthy = h } }

-- The start of `main`: trip after 3 failures, close after 2 good probes.
unfoldable pub main_start : ℕ → World
unfolding new
main_start cooldown = record {
  breaker = record (new 3 2 cooldown) { notify = true };
  service = record { healthy = false; calls = 0 };
}

-- The nine attempts of `main`, in its four phases.
unfoldable pub main_attempts : ℕ → List (ℕ × ℕ) → List (ℕ × ℕ) → World × List Report × List Report
unfolding attempts main_start set_healthy
main_attempts cooldown broken recovered =
    let (w, sick) = attempts broken (main_start cooldown) in
    let (w', well) = attempts recovered (set_healthy true w) in (w', sick, well)
