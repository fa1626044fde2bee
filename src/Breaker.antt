-- ===== src/Breaker.antt =====
-- examples/circuit-breaker/breaker.go. A method returns the new breaker and its result; the
-- injected clock is read once by each method, so its value is an argument `now`.
-- Times are natural numbers of nanoseconds: `now.Sub(openedAt) < cooldown` is
-- `now < openedAt + cooldown`. The calls of OnStateChange are kept in `changes`, newest first.
-- The counters are unbounded here: the invariant keeps them below their thresholds, which are Go
-- ints, so the code's counters do not wrap.
pub mod Invariant
pub mod Policy
pub mod Probes
pub mod Service
mod Tests
use go_examples.Base.{
  ℕ, suc, ◌+◌, ◌≤◌, Bool, true, false, List, [], ◌∷◌, Option, none, some, ltb, leb, ◌==◌,
  if◌then◌else◌,
}

pub data State : Type 0 where
  state_closed state_open state_half_open : State
  unknown : ℕ → State

-- What `allow` refuses with: ErrOpen, or the error of the `default` branch.
pub data Refusal : Type 0 where
  err_open : Refusal
  unknown_state : State → Refusal

pub record Breaker : Type 0 where
  pub failure_threshold : ℕ
  pub success_threshold : ℕ
  pub cooldown : ℕ
  pub notify : Bool  -- OnStateChange is set
  pub changes : List (State × State)  -- the calls of OnStateChange
  pub state : State
  pub failures : ℕ
  pub successes : ℕ
  pub opened_at : ℕ
  pub probing : Bool

unfoldable pub new : ℕ → ℕ → ℕ → Breaker
new failure_threshold success_threshold cooldown = record {
  failure_threshold = failure_threshold;
  success_threshold = success_threshold;
  cooldown = cooldown;
  notify = false;
  changes = [];
  state = state_closed;
  failures = 0;
  successes = 0;
  opened_at = 0;
  probing = false;
}

-- `from == to`
abbrev pub same_state : State → State → Bool
same_state state_closed state_closed = true
same_state state_open state_open = true
same_state state_half_open state_half_open = true
same_state (unknown m) (unknown n) = m == n
same_state _ _ = false

abbrev is_half_open : State → Bool
is_half_open state_half_open = true
is_half_open _ = false

unfoldable pub transition : State → Breaker → Breaker
transition to b = if same_state b.state to then b else record b {
  state = to;
  failures = 0;
  successes = 0;
  probing = if is_half_open to then b.probing else false;
  changes = if b.notify then (b.state, to) ∷ b.changes else b.changes;
}

-- the `switch` of `allow`
allow_in : State → ℕ → Breaker → Breaker × Option Refusal
unfolding transition
allow_in state_closed now b = (b, none)
allow_in state_open now b =
    if ltb now (b.opened_at + b.cooldown)
    then (b, some err_open)
    else (record (transition state_half_open b) { probing = true }, none)
allow_in state_half_open now b =
    if b.probing then (b, some err_open) else (record b { probing = true }, none)
allow_in (unknown n) now b = (b, some (unknown_state b.state))

unfoldable pub allow : ℕ → Breaker → Breaker × Option Refusal
unfolding allow_in
allow now b = allow_in b.state now b

record_closed : Bool → ℕ → Breaker → Breaker
unfolding transition
record_closed true now b = record b { failures = 0 }
record_closed false now b =
    let c = record b { failures = b.failures + 1 } in
    if leb b.failure_threshold (b.failures + 1)
    then transition state_open (record c { opened_at = now })
    else c

record_half_open : Bool → ℕ → Breaker → Breaker
unfolding transition
record_half_open true now b =
    let c = record b { probing = false; successes = b.successes + 1 } in
    if leb b.success_threshold (b.successes + 1) then transition state_closed c else c
record_half_open false now b = transition state_open (record b { probing = false; opened_at = now })

-- the `switch` of `record`; a state outside the three constants has no case
record_in : State → Bool → ℕ → Breaker → Breaker
unfolding record_closed record_half_open
record_in state_closed success now b = record_closed success now b
record_in state_half_open success now b = record_half_open success now b
record_in state_open success now b = b
record_in (unknown n) success now b = b

unfoldable pub record_outcome : Bool → ℕ → Breaker → Breaker
unfolding record_in
record_outcome success now b = record_in b.state success now b

-- `Do`: the error is the breaker's refusal or that of `fn`; `none` is nil.
pub data DoError {ℓ} (E : Type ℓ) : Type ℓ where
  refused : Refusal → DoError E
  failed : E → DoError E

abbrev pub is_nil {ℓ} : {E : Type ℓ} → Option E → Bool
is_nil none = true
is_nil (some e) = false

-- `fn` acts on a state of its own. The clock is read by `allow` and, later, by `record`.
abbrev run_do {ℓ κ} :
    {W : Type ℓ} {E : Type κ}
    → (W → W × Option E)
    → ℕ
    → W
    → Breaker × Option Refusal
    → Breaker × W × Option (DoError E)
run_do fn later w (b, some e) = (b, w, some (refused e))
run_do fn later w (b, none) =
    let (w', e) = fn w in
    (record_outcome (is_nil e) later b, w', elim e [ none ↦ none | some x ↦ some (failed x) ])

unfoldable pub do_call {ℓ κ} :
    {W : Type ℓ} {E : Type κ}
    → (W → W × Option E)
    → ℕ
    → ℕ
    → Breaker
    → W
    → Breaker × W × Option (DoError E)
do_call fn now later b w = run_do fn later w (allow now b)
