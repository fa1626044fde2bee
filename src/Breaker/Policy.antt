-- ===== src/Breaker/Policy.antt =====
-- A machine whose states have only their own data, as a specification of the breaker,
-- which keeps all its fields in every state.
use go_examples.Base.{
  ℕ, ◌+◌, ◌≡◌, refl, ap, ◌∙◌, Bool, true, false, List, [], ◌∷◌, Option, none, some, ltb, leb,
  if◌then◌else◌, arith,
}
use go_examples.Breaker.{
  Breaker, State, state_closed, state_open, state_half_open, unknown, Refusal, err_open, allow,
  record_outcome,
}
use go_examples.Breaker.Invariant.{IsValid, allow-IsValid, record_outcome-IsValid}

-- Closed with the consecutive failures, open since a time, half-open with the successful probes and whether
-- a probe is in flight.
pub data Policy : Type 0 where
  closed open_since : ℕ → Policy
  half_open : ℕ → Bool → Policy

-- One critical section of a caller: `allow`, or `record` with the outcome, and the time that it reads.
pub data Section : Type 0 where
  asks : ℕ → Section
  tells : Bool → ℕ → Section

module _ (failure_threshold success_threshold cooldown : ℕ) where
  unfoldable pub decide : ℕ → Policy → Policy × Option Refusal
  decide now (closed n) = (closed n, none)
  decide now (open_since t) =
      if ltb now (t + cooldown) then (open_since t, some err_open) else (half_open 0 true, none)
  decide now (half_open n true) = (half_open n true, some err_open)
  decide now (half_open n false) = (half_open n true, none)

  unfoldable pub learn : Bool → ℕ → Policy → Policy
  learn true now (closed n) = closed 0
  learn false now (closed n) =
      if leb failure_threshold (n + 1) then open_since now else closed (n + 1)
  learn success now (open_since t) = open_since t
  learn true now (half_open n probing) =
      if leb success_threshold (n + 1) then closed 0 else half_open (n + 1) false
  learn false now (half_open n probing) = open_since now

  -- The replies to a sequence of sections.
  unfoldable pub policy_replies : Policy → List Section → List (Option Refusal)
  policy_replies p [] = []
  policy_replies p (asks now ∷ ss) = let (p', r) = decide now p in r ∷ policy_replies p' ss
  policy_replies p (tells success now ∷ ss) = policy_replies (learn success now p) ss

unfoldable pub replies : Breaker → List Section → List (Option Refusal)
replies b [] = []
replies b (asks now ∷ ss) = let (b', r) = allow now b in r ∷ replies b' ss
replies b (tells success now ∷ ss) = replies (record_outcome success now b) ss

-- The machine's state that a breaker stands for.
abbrev pub stands_in : State → Breaker → Policy
stands_in state_closed b = closed b.failures
stands_in state_open b = open_since b.opened_at
stands_in state_half_open b = half_open b.successes b.probing
stands_in (unknown n) b = closed 0

abbrev pub stands_for : Breaker → Policy
stands_for b = stands_in b.state b

abbrev pub decides : Breaker → ℕ → Policy → Policy × Option Refusal
decides b = decide b.failure_threshold b.success_threshold b.cooldown

abbrev pub learns : Breaker → Bool → ℕ → Policy → Policy
learns b = learn b.failure_threshold b.success_threshold b.cooldown

allow-refines :
    (now : ℕ) (b : Breaker)
    → IsValid b
    → (stands_for (allow now b).0, (allow now b).1) ≡ decides b now (stands_for b)
unfolding allow decide
allow-refines now b v = ground arith

record_outcome-refines :
    (success : Bool) (now : ℕ) (b : Breaker)
    → IsValid b
    → stands_for (record_outcome success now b) ≡ learns b success now (stands_for b)
unfolding record_outcome learn
record_outcome-refines true now b v = ground arith
record_outcome-refines false now b v = ground arith

-- The thresholds and the cooldown do not change.
record Same (b c : Breaker) : Type 0 where
  trips : c.failure_threshold ≡ b.failure_threshold
  closes : c.success_threshold ≡ b.success_threshold
  cools : c.cooldown ≡ b.cooldown

allow-Same : (now : ℕ) (b : Breaker) → IsValid b → Same b (allow now b).0
unfolding allow
allow-Same now b v = ground arith

record_outcome-Same :
    (success : Bool) (now : ℕ) (b : Breaker) → IsValid b → Same b (record_outcome success now b)
unfolding record_outcome
record_outcome-Same true now b v = ground arith
record_outcome-Same false now b v = ground arith

-- The machine's replies with the thresholds of a breaker.
abbrev pub expected : Breaker → Policy → List Section → List (Option Refusal)
expected b = policy_replies b.failure_threshold b.success_threshold b.cooldown

expected-Same :
    (b c : Breaker) (p : Policy) (ss : List Section) → Same b c → expected c p ss ≡ expected b p ss
expected-Same b c p ss e = rw (e.trips, e.closes, e.cools) refl

-- In any sequence of calls of `allow` and `record`, of however many concurrent callers, the replies of a valid
-- breaker are those of the machine, from the state that the breaker stands for: what the fields
-- of the other states still hold never shows.
pub replies_refine :
    (ss : List Section) (b : Breaker) → IsValid b → replies b ss ≡ expected b (stands_for b) ss
unfolding replies policy_replies
replies_refine [] b v = refl
replies_refine (asks now ∷ ss) b v =
    let r = allow-refines now b v in
    let rest =
      replies_refine ss (allow now b).0 (allow-IsValid now b v)
      ∙ expected-Same b (allow now b).0 _ ss (allow-Same now b v) in
    ap (λ t. (allow now b).1 ∷ t) rest ∙ ap (λ x. x.1 ∷ expected b x.0 ss) r
replies_refine (tells success now ∷ ss) b v =
    replies_refine ss (record_outcome success now b) (record_outcome-IsValid success now b v)
    ∙ expected-Same b (record_outcome success now b) _ ss (record_outcome-Same success now b v)
    ∙ ap (λ p. expected b p ss) (record_outcome-refines success now b v)
