-- ===== src/Breaker/Invariant.antt =====
-- breaker.go: what holds of a breaker between two critical sections, and the legal state changes.
use go_examples.Base.{ℕ, ◌<◌, ◌≡◌, ◌≢◌, ◌⊎◌, Bool, true, false, List, [], ◌∷◌, arith}
use go_examples.Breaker.{
  Breaker, State, state_closed, state_open, state_half_open, new, allow, record_outcome,
}

pub record IsValid (b : Breaker) : Type 0 where
  pub known : (b.state ≡ state_closed) ⊎ (b.state ≡ state_open) ⊎ (b.state ≡ state_half_open)
  pub trips_at : 0 < b.failure_threshold
  pub closes_at : 0 < b.success_threshold
  pub failing : b.state ≡ state_closed → b.failures < b.failure_threshold
  pub failures_closed : b.state ≢ state_closed → b.failures ≡ 0
  pub recovering : b.state ≡ state_half_open → b.successes < b.success_threshold
  pub successes_half_open : b.state ≢ state_half_open → b.successes ≡ 0
  pub probing_half_open : b.probing ≡ true → b.state ≡ state_half_open

pub new-IsValid : (f s c : ℕ) → 0 < f → 0 < s → IsValid (new f s c)
unfolding new
new-IsValid f s c hf hs = ground arith

-- The critical section of `allow` keeps a breaker valid.
pub allow-IsValid : (now : ℕ) (b : Breaker) → IsValid b → IsValid (allow now b).0
unfolding allow
allow-IsValid now b v = ground arith

-- So does that of `record`, for either outcome and whenever the call began.
pub record_outcome-IsValid :
    (success : Bool) (now : ℕ) (b : Breaker) → IsValid b → IsValid (record_outcome success now b)
unfolding record_outcome
record_outcome-IsValid true now b v = ground arith
record_outcome-IsValid false now b v = ground arith

-- The diagram of the type's comment.
abbrev pub is_edge : State → State → Bool
is_edge state_closed state_open = true
is_edge state_open state_half_open = true
is_edge state_half_open state_open = true
is_edge state_half_open state_closed = true
is_edge _ _ = false

-- The recorded changes, newest first, are a walk of the diagram from `state_closed` to a state.
abbrev pub Walk : List (State × State) → State → Type 0
Walk [] s = s ≡ state_closed
Walk ((from, to) ∷ l) s = (to ≡ s) × (is_edge from to ≡ true) × Walk l from

pub record IsLogged (b : Breaker) : Type 0 where
  pub notified : b.notify ≡ true
  pub walked : Walk b.changes b.state

pub allow-IsLogged : (now : ℕ) (b : Breaker) → IsLogged b → IsLogged (allow now b).0
unfolding allow
allow-IsLogged now b v = ground arith

pub record_outcome-IsLogged :
    (success : Bool) (now : ℕ) (b : Breaker) → IsLogged b → IsLogged (record_outcome success now b)
unfolding record_outcome
record_outcome-IsLogged true now b v = ground arith
record_outcome-IsLogged false now b v = ground arith
