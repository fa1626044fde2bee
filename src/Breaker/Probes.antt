-- ===== src/Breaker/Probes.antt =====
-- breaker.go under concurrency: `fn` runs outside the lock, so calls overlap. An event is one
-- critical section: `begin` is `allow`, and the two endings are `record`, for a call that was let
-- through by a closed breaker (`passing`) or as a probe (`probes`).
use go_examples.Base.{
  ℕ, zero, suc, ◌+◌, ◌≤◌, ◌<◌, ◌≡◌, ◌≢◌, Bool, true, false, List, [], ◌∷◌, Option, none, some,
  arith, if◌then◌else◌,
}
use go_examples.Breaker.{
  Breaker, State, Refusal, state_closed, state_half_open, same_state, new, allow, record_outcome,
}

pub record System : Type 0 where
  pub breaker : Breaker
  pub passing : ℕ
  pub probes : ℕ

pub data Event : Type 0 where
  begin : ℕ → Event
  end_passing end_probe : Bool → ℕ → Event

abbrev admitted : Bool → System → Breaker × Option Refusal → System
admitted was_closed s (b, some e) = record s { breaker = b }
admitted true s (b, none) = record s { breaker = b; passing = s.passing + 1 }
admitted false s (b, none) = record s { breaker = b; probes = s.probes + 1 }

-- An ending with no such call in flight changes nothing.
unfoldable pub step : System → Event → System
step s (begin now) = admitted (same_state s.breaker.state state_closed) s (allow now s.breaker)
step s (end_passing success now) = elim s.passing [
  | zero ↦ s
  | suc p ↦ record s { breaker = record_outcome success now s.breaker; passing = p }
]
step s (end_probe success now) = elim s.probes [
  | zero ↦ s
  | suc p ↦ record s { breaker = record_outcome success now s.breaker; probes = p }
]

unfoldable pub run : System → List Event → System
run s [] = s
run s (e ∷ es) = run (step s e) es

unfoldable pub idle : Breaker → System
idle b = record { breaker = b; passing = 0; probes = 0 }

abbrev is_late : State → Event → Bool
is_late state_half_open (end_passing success now) = true
is_late _ _ = false

-- No call that a closed breaker let through ends while the breaker is half-open.
abbrev pub IsTimely : System → List Event → Type 0
IsTimely s [] = Unit
IsTimely s (e ∷ es) = (is_late s.breaker.state e ≡ false) × IsTimely (step s e) es

record OneProbe (s : System) : Type 0 where
  slot : s.breaker.state ≡ state_half_open → s.probes ≡ (if s.breaker.probing then 1 else 0)
  no_probe : s.breaker.state ≢ state_half_open → s.probes ≡ 0

step-OneProbe :
    (s : System) (e : Event) → is_late s.breaker.state e ≡ false → OneProbe s → OneProbe (step s e)
unfolding step allow record_outcome
step-OneProbe s (begin now) t v = ground arith
step-OneProbe s (end_passing true now) t v = ground arith
step-OneProbe s (end_passing false now) t v = ground arith
step-OneProbe s (end_probe true now) t v = ground arith
step-OneProbe s (end_probe false now) t v = ground arith

run-OneProbe : (s : System) (es : List Event) → IsTimely s es → OneProbe s → OneProbe (run s es)
unfolding run
run-OneProbe s [] t v = v
run-OneProbe s (e ∷ es) t v = run-OneProbe (step s e) es t.1 (step-OneProbe s e t.0 v)

idle-OneProbe : (f s c : ℕ) → OneProbe (idle (new f s c))
unfolding idle new
idle-OneProbe f s c = ground arith

OneProbe-le : {s : System} → OneProbe s → s.probes ≤ 1
OneProbe-le {s} v = ground arith

-- However calls overlap, at most one probe is in flight, and none unless the breaker is half-open,
-- as long as no call that a closed breaker let through ends while the breaker is half-open.
pub run_one_probe :
    (f s c : ℕ) (es : List Event)
    → IsTimely (idle (new f s c)) es
    → let w = run (idle (new f s c)) es in
      (w.probes ≤ 1) × (w.breaker.state ≢ state_half_open → w.probes ≡ 0)
run_one_probe f s c es t =
    let v = run-OneProbe _ es t (idle-OneProbe f s c) in (OneProbe-le v, v.no_probe)

-- Without that condition the promise fails: whenever such a late call succeeds while the probe is
-- in flight, and one more success does not close the breaker, the next call is let through as a
-- further probe.
pub late_success_admits_probe :
    (s : System) (now later p : ℕ)
    → s.breaker.state ≡ state_half_open
    → s.passing ≡ suc p
    → s.breaker.successes + 1 < s.breaker.success_threshold
    → let w = run s (end_passing true now ∷ begin later ∷ []) in
      (w.probes ≡ s.probes + 1) × (w.breaker.state ≡ state_half_open)
unfolding run step allow record_outcome
late_success_admits_probe s now later p h k l = ground arith
