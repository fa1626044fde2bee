-- ===== src/Kafka/Writing.antt =====
-- Which attempt decides the bounded retry.
use mathlib.Core.Path.{subst}
use go_examples.Base.{
  ℕ, zero, suc, ◌+◌, ◌≤◌, ◌<◌, ◌≡◌, sym, ap, ◌⊎◌, inl, inr, ◌∙◌, Bool, true, false, Option, none,
  some, arith,
}
use go_examples.Kafka.{KafkaError, is_unknown_topic, write_messages}

-- The attempt is answered by UnknownTopicOrPartition before the deadline.
abbrev pub Retried : (ℕ → Option KafkaError) → (ℕ → Bool) → ℕ → Type 0
Retried answers late i =
    (e : KafkaError) × (answers i ≡ some e) × (is_unknown_topic e ≡ true) × (late i ≡ false)

-- The attempt succeeds, fails with another error, or ends after the deadline.
abbrev pub Decisive : (ℕ → Option KafkaError) → (ℕ → Bool) → ℕ → Type 0
Decisive answers late k =
    (answers k ≡ none)
    ⊎ ((e : KafkaError) × (answers k ≡ some e) × ((is_unknown_topic e ≡ false) ⊎ (late k ≡ true)))

retry :
    (answers : ℕ → Option KafkaError) (late : ℕ → Bool) (n i : ℕ)
    → Retried answers late i
    → write_messages answers late (suc n) i ≡ write_messages answers late n (suc i)
unfolding write_messages
retry answers late n i (e, a, u, l) = ground (arith, a, u, l)

decide :
    (answers : ℕ → Option KafkaError) (late : ℕ → Bool) (n i : ℕ)
    → Decisive answers late i
    → write_messages answers late (suc n) i ≡ some (answers i)
unfolding write_messages
decide answers late n i (inl a) = ground (arith, a)
decide answers late n i (inr (e, a, inl u)) = ground (arith, a, u)
decide answers late n i (inr (e, a, inr l)) = ground (arith, a, l)

from_round :
    (answers : ℕ → Option KafkaError) (late : ℕ → Bool) (k i t fuel : ℕ)
    → i + k ≡ t
    → k < fuel
    → ((j : ℕ) → i ≤ j → j < t → Retried answers late j)
    → Decisive answers late t
    → write_messages answers late fuel i ≡ some (answers t)
from_round answers late k i t zero e f h d = ground arith
from_round answers late zero i t (suc n) e f h d =
    let i≡t : i ≡ t = omega arith in
    decide answers late n i (subst (Decisive answers late) (sym i≡t) d)
    ∙ ap (λ x. some (answers x)) i≡t
from_round answers late (suc k) i t (suc n) e f h d =
    retry answers late n i (h i (omega arith) (omega arith))
    ∙ from_round answers late k (suc i) t n (omega arith) (omega arith)
        (λ j l m. h j (omega arith) m) d

-- The first write that succeeds, fails with an error other than UnknownTopicOrPartition, or ends
-- after the deadline decides: with fuel for the retries before it and itself, writeMessages returns
-- what that write returned.
pub write_messages_decides :
    (answers : ℕ → Option KafkaError) (late : ℕ → Bool) (k fuel : ℕ)
    → k < fuel
    → ((j : ℕ) → j < k → Retried answers late j)
    → Decisive answers late k
    → write_messages answers late fuel 0 ≡ some (answers k)
write_messages_decides answers late k fuel f h d =
    from_round answers late k 0 k fuel (omega arith) f (λ j l m. h j m) d
