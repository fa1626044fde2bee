-- ===== src/Kafka.antt =====
-- examples/kafka/main.go, without the text it prints. kafka-go and the cluster are not part of the
-- repository: what they answer to each call is an argument, a function of the call's number, as
-- is whether the deadline has passed. A loop that ends by its deadline only has fuel.
pub mod Writing
pub mod Consuming
pub mod AtLeastOnce
pub mod Demo
pub mod Ordering
mod Tests
use Prim.Native.String.{String}
use text.Mathlib.Text.{◌==◌ as str_eq}
use go_examples.Base.{
  ℕ, zero, suc, ◌+◌, Bool, true, false, List, [], ◌∷◌, ◌++◌, Option, none, some, Result, ok, err,
  Error, leaf, wrap, ◌>>=◌, ◌>>◌, ◌==◌, if◌then◌else◌, length,
}

-- kafka.Message; the partition is the cluster's.
pub record Message : Type 0 where
  pub key : String
  pub value : String
  pub partition : ℕ

-- kafka.UnknownTopicOrPartition among the errors that a WriteErrors can hold.
pub data Code : Type 0 where
  unknown_topic other_error : Code

-- A WriteErrors holds an optional error for each message.
pub data Leaf : Type 0 where
  plain : Code → Leaf
  write_errors : List (Option (Error String Code)) → Leaf
  topic_not_visible : ℕ → Leaf
  hash_balancing_broken : String → ℕ → ℕ → Leaf

abbrev pub KafkaError : Type 0
KafkaError = Error String Leaf

-- `errors.Is(e, kafka.UnknownTopicOrPartition)` on such an error, and on one of this program.
abbrev pub code_is_unknown : Error String Code → Bool
code_is_unknown (leaf unknown_topic) = true
code_is_unknown (leaf other_error) = false
code_is_unknown (wrap c e) = code_is_unknown e

abbrev pub is_unknown : KafkaError → Bool
is_unknown (leaf (plain unknown_topic)) = true
is_unknown (leaf _) = false
is_unknown (wrap c e) = is_unknown e

abbrev pub any_unknown : List (Option (Error String Code)) → Bool
any_unknown [] = false
any_unknown (none ∷ es) = any_unknown es
any_unknown (some e ∷ es) = if code_is_unknown e then true else any_unknown es

-- `errors.As(err, &writeErrs)`
abbrev pub as_write_errors : KafkaError → Option (List (Option (Error String Code)))
as_write_errors (leaf (write_errors es)) = some es
as_write_errors (leaf _) = none
as_write_errors (wrap c e) = as_write_errors e

unfoldable pub is_unknown_topic : KafkaError → Bool
is_unknown_topic e =
    if is_unknown e
    then true
    else elim (as_write_errors e) [ none ↦ false | some es ↦ any_unknown es ]

-- The loop of `writeMessages` from its attempt `i` on: the answers to WriteMessages, and whether
-- the deadline has passed after each. `none` is out of fuel.
unfoldable pub write_messages :
    (ℕ → Option KafkaError) → (ℕ → Bool) → ℕ → ℕ → Option (Option KafkaError)
unfolding is_unknown_topic
write_messages answers late zero i = none
write_messages answers late (suc fuel) i =
    let rest = write_messages answers late fuel (suc i) in
    elim (answers i) [
      | none ↦ some none
      | some e ↦
          if is_unknown_topic e then (if late i then some (some e) else rest) else some (some e)
    ]

-- The polling of `createTopic`: the partitions that each ReadPartitions reports.
unfoldable pub await_topic :
    ℕ → (ℕ → Result KafkaError ℕ) → (ℕ → Bool) → ℕ → ℕ → Option (Option KafkaError)
await_topic partitions reads late zero i = none
await_topic partitions reads late (suc fuel) i =
    let rest = await_topic partitions reads late fuel (suc i) in
    let again = if late i then some (some (leaf (topic_not_visible partitions))) else rest in
    elim (reads i) [ err e ↦ again | ok n ↦ if n == partitions then some none else again ]

-- What was done with a message: it was recorded, or its commit was sent, with whatever answer.
pub data Deed : Type 0 where
  recorded commit_sent : Message → Deed

-- What `consumeGroup` has recorded, and the messages whose commit was acknowledged. `log` is no state of the
-- program: what was done, in order.
pub record Consumer : Type 0 where
  pub by_key : String → List String
  pub partition_of : String → Option ℕ
  pub committed : List Message
  pub log : List Deed

abbrev pub put {ℓ} : {A : Type ℓ} → String → A → (String → A) → String → A
put k a table j = if str_eq j k then a else table j

-- `byKey[key] = append(byKey[key], ...)`
abbrev pub processed : Message → Consumer → Consumer
processed m c = record c {
  by_key = put m.key (c.by_key m.key ++ m.value ∷ []) c.by_key;
  log = c.log ++ recorded m ∷ [];
}

abbrev pub committing :
    Option KafkaError → Message → Consumer → Consumer × Result KafkaError (Unit {0})
committing (some e) m c =
    (record c { log = c.log ++ commit_sent m ∷ [] }, err (wrap "committing" e))
committing none m c =
    (record c { committed = c.committed ++ m ∷ []; log = c.log ++ commit_sent m ∷ [] }, ok tt)

abbrev pub same_partition : Option ℕ → ℕ → Bool
same_partition none p = true
same_partition (some q) p = q == p

-- The round of `consumeGroup` after the fetch.
unfoldable pub consume_message :
    Option KafkaError → Message → Consumer → Consumer × Result KafkaError (Unit {0})
consume_message commit m c =
    let seen = c.partition_of m.key in
    let c1 = processed m c in
    if same_partition seen m.partition
    then committing commit m
        (record c1 { partition_of = put m.key (some m.partition) c.partition_of })
    else (
      c1,
      err (leaf (hash_balancing_broken m.key (elim seen [ none ↦ 0 | some p ↦ p ]) m.partition)),
    )

-- The rounds of `consumeGroup` that are left, from the round `i` on.
unfoldable pub consume_rounds :
    (ℕ → Result KafkaError Message)
    → (ℕ → Option KafkaError)
    → ℕ
    → ℕ
    → Consumer
    → Consumer × Result KafkaError (Unit {0})
unfolding consume_message
consume_rounds fetches commits zero i c = (c, ok tt)
consume_rounds fetches commits (suc left) i c = elim (fetches i) [
  | err e ↦ (c, err (wrap "fetching" e))
  | ok m ↦
      let (c', r) = consume_message (commits i) m c in
      let rest = consume_rounds fetches commits left (suc i) c' in
      elim r [ err e ↦ (c', err e) | ok u ↦ rest ]
]

abbrev pub no_messages : Consumer
no_messages = record { by_key = λ k. []; partition_of = λ k. none; committed = []; log = [] }

unfoldable pub consume_group :
    (ℕ → Result KafkaError Message)
    → (ℕ → Option KafkaError)
    → ℕ
    → Consumer × Result KafkaError (Unit {0})
unfolding consume_rounds
consume_group fetches commits expect = consume_rounds fetches commits expect 0 no_messages

-- `resumeAfterRestart`: the write, the closing of the writer, the fetch and the commit.
unfoldable pub resume_after_restart :
    Option (Option KafkaError)
    → Option KafkaError
    → Result KafkaError Message
    → Option KafkaError
    → Option (Result KafkaError Message)
resume_after_restart none close fetch commit = none
resume_after_restart (some (some e)) close fetch commit =
    some (err (wrap "writing post-restart message" e))
resume_after_restart (some none) (some e) fetch commit = some (err (wrap "closing writer" e))
resume_after_restart (some none) none (err e) commit = some (err (wrap "fetching after restart" e))
resume_after_restart (some none) none (ok m) (some e) =
    some (err (wrap "committing after restart" e))
resume_after_restart (some none) none (ok m) none = some (ok m)
