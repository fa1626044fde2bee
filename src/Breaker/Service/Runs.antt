-- ===== src/Breaker/Service/Runs.antt =====
-- Runs of attempts: tripping, failing fast, recovering, and the walk through `main`.
use go_examples.Base.{
  ℕ, ◌+◌, ◌≤◌, ◌<◌, ◌≡◌, refl, true, false, List, [], ◌∷◌, arith, length, All, replicate,
}
use go_examples.Breaker.{Breaker, state_closed, state_open, state_half_open, allow, record_outcome}
use go_examples.Breaker.Invariant.{IsValid, IsLogged}
use go_examples.Breaker.Service.{
  World, ok_report, short_circuited, downstream_error, attempt, attempts, main_attempts,
}

-- Every run of attempts keeps the breaker valid and its callback history a walk of the diagram.
pub attempt-IsValid :
    (now later : ℕ) (w : World) → IsValid w.breaker → IsValid (attempt now later w).0.breaker
unfolding attempt allow record_outcome
attempt-IsValid now later w v = ground arith

attempt-IsLogged :
    (now later : ℕ) (w : World) → IsLogged w.breaker → IsLogged (attempt now later w).0.breaker
unfolding attempt allow record_outcome
attempt-IsLogged now later w v = ground arith

pub attempts-IsValid :
    (ts : List (ℕ × ℕ)) (w : World)
    → IsValid w.breaker
    → IsLogged w.breaker
    → IsValid (attempts ts w).0.breaker × IsLogged (attempts ts w).0.breaker
unfolding attempts
attempts-IsValid [] w v l = (v, l)
attempts-IsValid ((now, later) ∷ ts) w v l =
    attempts-IsValid ts (attempt now later w).0 (attempt-IsValid now later w v)
      (attempt-IsLogged now later w l)

-- Each reading of the clock by `allow` lies before the end of the cooldown.
abbrev pub CoolingDown : Breaker → List (ℕ × ℕ) → Type 0
CoolingDown b = All λ t. t.0 < b.opened_at + b.cooldown

attempt_open :
    (now later : ℕ) (w : World)
    → w.breaker.state ≡ state_open
    → now < w.breaker.opened_at + w.breaker.cooldown
    → attempt now later w ≡ (w, short_circuited)
unfolding attempt allow
attempt_open now later w o h = ground arith

-- While an open breaker cools down, every attempt is short-circuited: neither the breaker nor the
-- downstream service changes, so the service is not called.
pub attempts_fail_fast :
    (ts : List (ℕ × ℕ)) (w : World)
    → w.breaker.state ≡ state_open
    → CoolingDown w.breaker ts
    → attempts ts w ≡ (w, replicate (length ts) short_circuited)
unfolding attempts
attempts_fail_fast [] w o h = refl
attempts_fail_fast ((now, later) ∷ ts) w o h =
    ground (arith, attempt_open now later w o h.0, attempts_fail_fast ts w o h.1)

-- What `n` failing attempts leave of a breaker that stays closed.
pub record FailedSoFar (w : World) (n : ℕ) (w' : World) : Type 0 where
  pub still_closed : w'.breaker.state ≡ state_closed
  pub counted : w'.breaker.failures ≡ w.breaker.failures + n
  pub called : w'.service.calls ≡ w.service.calls + n
  pub still_sick : w'.service.healthy ≡ false
  pub same_threshold : w'.breaker.failure_threshold ≡ w.breaker.failure_threshold

attempt_failing :
    (now later : ℕ) (w : World)
    → w.breaker.state ≡ state_closed
    → w.service.healthy ≡ false
    → w.breaker.failures + 1 < w.breaker.failure_threshold
    → FailedSoFar w 1 (attempt now later w).0 × ((attempt now later w).1 ≡ downstream_error)
unfolding attempt allow record_outcome
attempt_failing now later w c u h = ground arith

attempt_tripping :
    (now later : ℕ) (w : World)
    → w.breaker.state ≡ state_closed
    → w.service.healthy ≡ false
    → w.breaker.failures + 1 ≡ w.breaker.failure_threshold
    → ((attempt now later w).0.breaker.state ≡ state_open)
      × ((attempt now later w).0.breaker.opened_at ≡ later)
      × ((attempt now later w).0.service.calls ≡ w.service.calls + 1)
      × ((attempt now later w).1 ≡ downstream_error)
unfolding attempt allow record_outcome
attempt_tripping now later w c u h = ground arith

attempts_below_threshold :
    (ts : List (ℕ × ℕ)) (w : World)
    → w.breaker.state ≡ state_closed
    → w.service.healthy ≡ false
    → w.breaker.failures + length ts < w.breaker.failure_threshold
    → FailedSoFar w (length ts) (attempts ts w).0
      × ((attempts ts w).1 ≡ replicate (length ts) downstream_error)
unfolding attempts
attempts_below_threshold [] w c u h = (ground arith, refl)
attempts_below_threshold ((now, later) ∷ ts) w c u h =
    let (so_far, r) = attempt_failing now later w c u (omega arith) in
    let (f, rs) =
      attempts_below_threshold ts (attempt now later w).0 so_far.still_closed so_far.still_sick
        (omega arith) in
    (ground arith, ground arith)

-- A closed breaker over a sick service: the attempts before the threshold is reached leave it
-- closed and count their failures, and the attempt that reaches the threshold opens it at its
-- second reading of the clock. Every one of them called the service and reports its error.
pub attempts_trip :
    (ts : List (ℕ × ℕ)) (now later : ℕ) (w : World)
    → w.breaker.state ≡ state_closed
    → w.service.healthy ≡ false
    → w.breaker.failures + length ts + 1 ≡ w.breaker.failure_threshold
    → let (before, reports) = attempts ts w in
      let (after, last) = attempt now later before in
      (before.breaker.state ≡ state_closed)
      × (before.breaker.failures ≡ w.breaker.failures + length ts)
      × (after.breaker.state ≡ state_open)
      × (after.breaker.opened_at ≡ later)
      × (after.service.calls ≡ w.service.calls + length ts + 1)
      × (reports ≡ replicate (length ts) downstream_error)
      × (last ≡ downstream_error)
attempts_trip ts now later w c u h =
    let (f, rs) = attempts_below_threshold ts w c u (omega arith) in
    let (o, at, k, r) =
      attempt_tripping now later (attempts ts w).0 f.still_closed f.still_sick (omega arith) in
    (f.still_closed, f.counted, o, at, omega arith, rs, r)

attempt_probing :
    (now later : ℕ) (w : World)
    → w.breaker.state ≡ state_half_open
    → w.breaker.probing ≡ false
    → w.service.healthy ≡ true
    → w.breaker.successes + 1 < w.breaker.success_threshold
    → let (w', r) = attempt now later w in
      (w'.breaker.state ≡ state_half_open)
      × (w'.breaker.probing ≡ false)
      × (w'.breaker.successes ≡ w.breaker.successes + 1)
      × (w'.breaker.success_threshold ≡ w.breaker.success_threshold)
      × (w'.service.healthy ≡ true)
      × (r ≡ ok_report)
unfolding attempt allow record_outcome
attempt_probing now later w s p u h = ground arith

-- Good probes, one after another, close a half-open breaker when there are as many as the success
-- threshold wants, and all of them succeed.
pub attempts_recover :
    (ts : List (ℕ × ℕ)) (w : World)
    → w.breaker.state ≡ state_half_open
    → w.breaker.probing ≡ false
    → w.service.healthy ≡ true
    → 0 < length ts
    → w.breaker.successes + length ts ≡ w.breaker.success_threshold
    → ((attempts ts w).0.breaker.state ≡ state_closed)
      × ((attempts ts w).0.breaker.failures ≡ 0)
      × ((attempts ts w).1 ≡ replicate (length ts) ok_report)
unfolding attempts attempt allow record_outcome
attempts_recover [] w s p u l h = elim l [ ]
attempts_recover ((now, later) ∷ []) w s p u l h = ground arith
attempts_recover ((now, later) ∷ t ∷ ts) w s p u l h =
    let (s', p', k, same, u', r) = attempt_probing now later w s p u (omega arith) in
    let (c, f, rs) =
      attempts_recover (t ∷ ts) (attempt now later w).0 s' p' u' (omega arith) (omega arith) in
    (c, f, ground arith)

-- One bad probe reopens the breaker and restarts its cooldown.
attempt_bad_probe :
    (now later : ℕ) (w : World)
    → w.breaker.state ≡ state_half_open
    → w.breaker.probing ≡ false
    → w.service.healthy ≡ false
    → ((attempt now later w).0.breaker.state ≡ state_open)
      × ((attempt now later w).0.breaker.opened_at ≡ later)
unfolding attempt allow record_outcome
attempt_bad_probe now later w s p u = ground arith

-- The walk through `main`, for any clock whose readings meet its pauses: the third failure opens
-- the breaker, calls 4 and 5 fall in the cooldown, call 6 comes after it and reopens the breaker,
-- and call 7 comes after the second cooldown. The final state is closed, and 7 of the 9 attempts
-- reached the service.
pub main_attempts_lem :
    (cooldown a1 b1 a2 b2 a3 opened a4 b4 a5 b5 a6 reopened a7 b7 a8 b8 a9 b9 : ℕ)
    → a4 < opened + cooldown
    → a5 < opened + cooldown
    → opened + cooldown ≤ a6
    → reopened + cooldown ≤ a7
    → let (w, sick, well) =
        main_attempts cooldown
          ((a1, b1) ∷ (a2, b2) ∷ (a3, opened) ∷ (a4, b4) ∷ (a5, b5) ∷ (a6, reopened) ∷ [])
          ((a7, b7) ∷ (a8, b8) ∷ (a9, b9) ∷ []) in
      (w.breaker.state ≡ state_closed)
      × (w.service.calls ≡ 7)
      × (sick
          ≡ downstream_error ∷ downstream_error ∷ downstream_error ∷ short_circuited
            ∷ short_circuited ∷ downstream_error ∷ [])
      × (well ≡ ok_report ∷ ok_report ∷ ok_report ∷ [])
unfolding main_attempts allow record_outcome attempt
main_attempts_lem cooldown a1 b1 a2 b2 a3 opened a4 b4 a5 b5 a6 reopened a7 b7 a8 b8 a9 b9 h4 h5 h6
      h7 =
    ground arith
