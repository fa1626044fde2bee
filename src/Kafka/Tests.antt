-- ===== src/Kafka/Tests.antt =====
-- A cluster that answers UnknownTopicOrPartition once, and a group that reads two keys.
use Prim.Native.String.{String}
use text.Mathlib.Text.{◌==◌ as str_eq}
use go_examples.Base.{
  List, map, Bool-cases, inr, ℕ, zero, suc, ◌<◌, ◌≡◌, refl, inl, Bool, false, [], ◌∷◌, Option, none,
  some, arith, Result, ok, err, leaf, wrap, ltb, ◌==◌, if◌then◌else◌,
}
use go_examples.Kafka.{
  Message, KafkaError, plain, unknown_topic, other_error, write_errors, write_messages, await_topic,
  consume_group, is_unknown_topic, resume_after_restart,
}
use go_examples.Kafka.Writing.{Retried, write_messages_decides}
use go_examples.Kafka.Consuming.{Recorded, fetched, values_of, consume_group-Recorded}
use go_examples.Kafka.Demo.{balance, order_pairs, TopicAnswers, create_topic, produce, run}
use go_examples.Kafka.Ordering.{on_partition, keys_in_order}
use go_examples.Kafka.AtLeastOnce.{Ahead, consume_group-Ahead}

-- user-a on partition 1, the other users on partition 0.
abbrev hash : String → ℕ
hash k = if str_eq k "user-a" then 1 else 0

abbrev received_orders : List (String × String)
received_orders =
    ("user-b", "order-2")
    ∷ ("user-a", "order-1")
    ∷ ("user-c", "order-3")
    ∷ ("user-b", "order-5")
    ∷ ("user-a", "order-4")
    ∷ ("user-c", "order-6")
    ∷ []

abbrev nth : List (String × String) → ℕ → Result KafkaError Message
nth [] i = err (leaf (plain other_error))
nth (m ∷ ms) zero = ok (balance hash m)
nth (m ∷ ms) (suc i) = nth ms i

abbrev not_ready : KafkaError
not_ready = wrap "kafka" (leaf (write_errors (none ∷ some (leaf unknown_topic) ∷ [])))

abbrev answers : ℕ → Option KafkaError
answers zero = some not_ready
answers (suc n) = none

abbrev never_late : ℕ → Bool
never_late n = false

first-Retried : (j : ℕ) → j < 1 → Retried answers never_late j
unfolding is_unknown_topic
first-Retried zero l = (not_ready, refl, refl, refl)
first-Retried (suc j) l = ground arith

write_messages_decides_instance : write_messages answers never_late 2 0 ≡ some none
write_messages_decides_instance =
    write_messages_decides answers never_late 1 2 (omega arith) first-Retried (inl refl)

deadline : write_messages (λ i. some not_ready) (λ i. ltb 2 i) 9 0 ≡ some (some not_ready)
unfolding write_messages is_unknown_topic
deadline = refl

await :
    await_topic 3 (λ i. if i == 0 then err (leaf (plain other_error)) else ok i) never_late 5 0
    ≡ some none
unfolding await_topic
await = refl

abbrev message : String → String → ℕ → Message
message key value partition = record { key = key; value = value; partition = partition }

abbrev fetches : ℕ → Result KafkaError Message
fetches zero = ok (message "user-a" "order-1" 2)
fetches (suc zero) = ok (message "user-b" "order-2" 0)
fetches (suc (suc n)) = ok (message "user-a" "order-4" 2)

abbrev no_errors : ℕ → Option KafkaError
no_errors i = none

group_ok : (consume_group fetches no_errors 3).1 ≡ ok tt
unfolding consume_group
group_ok = refl

consume_group-Recorded_instance :
    Recorded (fetched fetches no_errors 3 0) (consume_group fetches no_errors 3).0
consume_group-Recorded_instance = consume_group-Recorded fetches no_errors 3 group_ok

group_values : (consume_group fetches no_errors 3).0.by_key "user-a" ≡ "order-1" ∷ "order-4" ∷ []
unfolding consume_group
group_values = refl

consume_group-Ahead_example :
    Ahead
      (consume_group fetches (λ i. if i == 1 then some (leaf (plain other_error)) else none) 3).0
consume_group-Ahead_example =
    consume_group-Ahead fetches (λ i. if i == 1 then some (leaf (plain other_error)) else none) 3

resumed : resume_after_restart (some none) none (fetches 0) none ≡ some (fetches 0)
unfolding resume_after_restart
resumed = refl

delivered :
    (p : ℕ)
    → on_partition p (fetched (nth received_orders) no_errors 6 0)
      ≡ on_partition p (map (balance hash) order_pairs)
delivered p = elim (Bool-cases (0 == p)) [
  | inl t ↦ ground (arith, t)
  | inr t ↦ elim (Bool-cases (1 == p)) [
    | inl u ↦ ground (arith, t, u)
    | inr u ↦ ground (arith, t, u)
  ]
]

group_of_six : (consume_group (nth received_orders) no_errors 6).1 ≡ ok tt
unfolding consume_group
group_of_six = refl

keys_in_order_example :
    (consume_group (nth received_orders) no_errors 6).0.by_key "user-b"
    ≡ values_of "user-b" (map (balance hash) order_pairs)
keys_in_order_example =
    keys_in_order hash order_pairs (nth received_orders) no_errors 6 delivered group_of_six "user-b"

abbrev good_topic : TopicAnswers
good_topic = record {
  dial = none;
  controller = none;
  dial_controller = none;
  create = none;
  reads = λ i. ok (if i == 0 then 0 else 3);
  late = never_late;
}

demo-run :
    run 2 good_topic answers never_late (nth received_orders) no_errors (some (fetches 0))
    ≡ some none
unfolding run create_topic produce consume_group
demo-run = refl

unreachable-run :
    run 2
      (record good_topic { controller = some not_ready })
      answers
      never_late
      fetches
      no_errors
      none
    ≡ some (some (wrap "finding controller" not_ready))
unfolding run create_topic
unreachable-run = refl
