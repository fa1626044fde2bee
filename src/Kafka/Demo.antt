-- ===== src/Kafka/Demo.antt =====
-- createTopic, produce and run of examples/kafka/main.go: the calls before the polling, the six messages, and the order
-- of the demonstrations.
use Prim.Native.String.{String}
use go_examples.Base.{ℕ, Bool, List, [], ◌∷◌, Option, none, some, Result, ok, err, wrap}
use go_examples.Kafka.{Message, KafkaError, await_topic, write_messages, consume_group}

-- The errors of the calls to the cluster, and what ReadPartitions answers.
pub record TopicAnswers : Type 0 where
  pub dial : Option KafkaError
  pub controller : Option KafkaError
  pub dial_controller : Option KafkaError
  pub create : Option KafkaError
  pub reads : ℕ → Result KafkaError ℕ
  pub late : ℕ → Bool

abbrev pub unless_error :
    Option KafkaError → String → Option (Option KafkaError) → Option (Option KafkaError)
unless_error none context rest = rest
unless_error (some e) context rest = some (some (wrap context e))

-- `none` is out of fuel, as in `await_topic`.
unfoldable pub create_topic : ℕ → ℕ → TopicAnswers → Option (Option KafkaError)
unfolding await_topic
create_topic fuel partitions a = unless_error a.dial "kafka is not reachable" (
    unless_error a.controller "finding controller" (
      unless_error a.dial_controller "dialing controller"
        (unless_error a.create "creating topic" (await_topic partitions a.reads a.late fuel 0))))

-- The Hash balancer sends a key to the partition that `hash` gives.
abbrev pub balance : (String → ℕ) → String × String → Message
balance hash (key, value) = record { key = key; value = value; partition = hash key }

-- The messages that `produce` makes, for i from 1 to 6.
abbrev pub order_pairs : List (String × String)
order_pairs =
    ("user-a", "order-1")
    ∷ ("user-b", "order-2")
    ∷ ("user-c", "order-3")
    ∷ ("user-a", "order-4")
    ∷ ("user-b", "order-5")
    ∷ ("user-c", "order-6")
    ∷ []

abbrev pub write_result : Option (Option KafkaError) → Option (Option KafkaError)
write_result none = none
write_result (some none) = some none
write_result (some (some e)) = some (some (wrap "writing messages" e))

unfoldable pub produce : ℕ → (ℕ → Option KafkaError) → (ℕ → Bool) → Option (Option KafkaError)
unfolding write_messages
produce fuel answers late = write_result (write_messages answers late fuel 0)

abbrev pub and_then :
    Option (Option KafkaError) → Option (Option KafkaError) → Option (Option KafkaError)
and_then none rest = none
and_then (some (some e)) rest = some (some e)
and_then (some none) rest = rest

abbrev pub error_of {ℓ} : {A : Type ℓ} → Result KafkaError A → Option KafkaError
error_of (ok a) = none
error_of (err e) = some e

abbrev pub ended : Option (Result KafkaError Message) → Option (Option KafkaError)
ended none = none
ended (some r) = some (error_of r)

unfoldable pub run :
    ℕ
    → TopicAnswers
    → (ℕ → Option KafkaError)
    → (ℕ → Bool)
    → (ℕ → Result KafkaError Message)
    → (ℕ → Option KafkaError)
    → Option (Result KafkaError Message)
    → Option (Option KafkaError)
unfolding create_topic produce consume_group
run fuel topic answers late fetches commits restart = and_then (create_topic fuel 3 topic) (
    and_then (produce fuel answers late)
      (and_then (some (error_of (consume_group fetches commits 6).1)) (ended restart)))
