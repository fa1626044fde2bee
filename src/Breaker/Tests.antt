-- ===== src/Breaker/Tests.antt =====
-- Runs of the breaker at concrete inputs: three failures trip it, two good probes close it.
use go_examples.Base.{◌≤◌, ◌≡◌, refl, ◌≢◌, true, false, List, [], ◌∷◌, none, some, arith, replicate}
use go_examples.Breaker.{
  state_closed, state_open, state_half_open, err_open, new, allow, record_outcome,
}
use go_examples.Breaker.Invariant.{IsValid, IsLogged, new-IsValid}
use go_examples.Breaker.Policy.{Section, asks, tells, replies, expected, stands_for, replies_refine}
use go_examples.Breaker.Probes.{
  System, step, begin, end_passing, idle, run, run_one_probe, late_success_admits_probe,
}
use go_examples.Breaker.Service.{
  World, ok_report, short_circuited, downstream_error, attempt, attempts, main_start, main_attempts,
}
use go_examples.Breaker.Service.Runs.{
  attempts-IsValid, attempts_fail_fast, attempts_trip, attempts_recover, main_attempts_lem,
}

attempts-IsValid_instance :
    IsValid (attempts ((0, 1) ∷ (2, 3) ∷ []) (main_start 50)).0.breaker
    × IsLogged (attempts ((0, 1) ∷ (2, 3) ∷ []) (main_start 50)).0.breaker
unfolding main_start
attempts-IsValid_instance =
    attempts-IsValid ((0, 1) ∷ (2, 3) ∷ []) (main_start 50) (ground arith) (ground arith)

-- The breaker of `main` after its third failure, at time 5.
abbrev tripped : World
tripped = record {
  breaker = record {
    failure_threshold = 3;
    success_threshold = 2;
    cooldown = 50;
    notify = true;
    changes = (state_closed, state_open) ∷ [];
    state = state_open;
    failures = 0;
    successes = 0;
    opened_at = 5;
    probing = false;
  };
  service = record { healthy = false; calls = 3 };
}

attempts_fail_fast_instance :
    attempts ((6, 7) ∷ (54, 56) ∷ []) tripped ≡ (tripped, replicate 2 short_circuited)
attempts_fail_fast_instance = attempts_fail_fast ((6, 7) ∷ (54, 56) ∷ []) tripped refl (omega arith)

attempts_trip_example :
    let (before, reports) = attempts ((0, 1) ∷ (2, 3) ∷ []) (main_start 50) in
    let (after, last) = attempt 4 5 before in
    (before.breaker.state ≡ state_closed)
    × (before.breaker.failures ≡ 2)
    × (after.breaker.state ≡ state_open)
    × (after.breaker.opened_at ≡ 5)
    × (after.service.calls ≡ 3)
    × (reports ≡ replicate 2 downstream_error)
    × (last ≡ downstream_error)
unfolding main_start
attempts_trip_example = attempts_trip ((0, 1) ∷ (2, 3) ∷ []) 4 5 (main_start 50) refl refl refl

abbrev probed : World
probed = record {
  breaker = record tripped.breaker { state = state_half_open };
  service = record { healthy = true; calls = 3 };
}

attempts_recover_instance :
    ((attempts ((60, 61) ∷ (62, 63) ∷ []) probed).0.breaker.state ≡ state_closed)
    × ((attempts ((60, 61) ∷ (62, 63) ∷ []) probed).0.breaker.failures ≡ 0)
    × ((attempts ((60, 61) ∷ (62, 63) ∷ []) probed).1 ≡ replicate 2 ok_report)
attempts_recover_instance =
    attempts_recover ((60, 61) ∷ (62, 63) ∷ []) probed refl refl refl (omega arith) refl

nine_attempts :
    (main_attempts 50
      ((0, 1) ∷ (2, 3) ∷ (4, 5) ∷ (6, 7) ∷ (8, 9) ∷ (65, 66) ∷ [])
      ((126, 127) ∷ (128, 129) ∷ (130, 131) ∷ [])).0.service.calls
    ≡ 7
nine_attempts =
    (main_attempts_lem 50 0 1 2 3 4 5 6 7 8 9 65 66 126 127 128 129 130 131 (omega arith)
      (omega arith) (omega arith) (omega arith)).1

run_one_probe_example :
    let w = run (idle (new 1 2 10)) (begin 0 ∷ end_passing false 5 ∷ begin 20 ∷ []) in
    (w.probes ≤ 1) × (w.breaker.state ≢ state_half_open → w.probes ≡ 0)
unfolding run step new idle allow record_outcome
run_one_probe_example =
    run_one_probe 1 2 10 (begin 0 ∷ end_passing false 5 ∷ begin 20 ∷ []) (refl, (refl, (refl, tt)))

-- Of two calls of the closed breaker one fails and trips it; the other is still running when the probe is sent out.
abbrev overlapping : System
overlapping = run (idle (new 1 2 10)) (begin 0 ∷ begin 1 ∷ end_passing false 5 ∷ begin 20 ∷ [])

late_success_admits_probe_example :
    ((run overlapping (end_passing true 21 ∷ begin 22 ∷ [])).probes ≡ 2)
    × ((run overlapping (end_passing true 21 ∷ begin 22 ∷ [])).breaker.state ≡ state_half_open)
unfolding run step new idle allow record_outcome
late_success_admits_probe_example =
    late_success_admits_probe overlapping 21 22 0 refl refl (omega arith)

-- A trip, a refusal, a probe that fails beside another caller, and a probe that closes.
abbrev sections : List Section
sections =
    asks 0
    ∷ tells false 1
    ∷ asks 3
    ∷ asks 11
    ∷ asks 12
    ∷ tells false 13
    ∷ asks 23
    ∷ tells true 24
    ∷ asks 25
    ∷ []

replies_refine_example :
    replies (new 1 1 10) sections ≡ expected (new 1 1 10) (stands_for (new 1 1 10)) sections
replies_refine_example =
    replies_refine sections (new 1 1 10) (new-IsValid 1 1 10 (omega arith) (omega arith))

sections-run :
    replies (new 1 1 10) sections ≡ none ∷ some err_open ∷ none ∷ some err_open ∷ none ∷ none ∷ []
unfolding replies new allow record_outcome
sections-run = refl
