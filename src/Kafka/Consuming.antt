-- ===== src/Kafka/Consuming.antt =====
-- What the consumer group has processed and committed when it stops.
use Prim.Native.String.{String}
use text.Mathlib.Text.{◌==◌ as str_eq}
use text.Mathlib.TextEquality.{eq_iff}
use text.Mathlib.TextPositions.{eq_refl}
use mathlib.Core.Path.{subst}
use mathlib.Core.List.{append-nil}
use go_examples.Base.{
  ℕ, zero, suc, ◌≡◌, refl, sym, ap, ◌∙◌, ◌⊎◌, true, List, [], ◌∷◌, ◌++◌, Option, none, some, arith,
  Result, ok, err, if◌then◌else◌, Bool-cases, inl, inr,
}
use go_examples.Kafka.{
  Message, same_partition, KafkaError, recorded, commit_sent, Consumer, put, consume_message,
  consume_rounds, consume_group, no_messages,
}

-- The values of the messages with the key, in their order.
abbrev pub values_of : String → List Message → List String
values_of k [] = []
values_of k (m ∷ ms) = if str_eq k m.key then m.value ∷ values_of k ms else values_of k ms

-- The messages lie each on the partition recorded for its key.
abbrev Placed : (String → Option ℕ) → List Message → Type 0
Placed p [] = Unit {0}
Placed p (m ∷ ms) = (p m.key ≡ some m.partition) × Placed p ms

-- `ms` is what the consumer has processed and committed.
pub record Recorded (ms : List Message) (c : Consumer) : Type 0 where
  pub values : (k : String) → c.by_key k ≡ values_of k ms
  pub partitions : Placed c.partition_of ms
  pub commits : c.committed ≡ ms

values_of-append :
    (k : String) (ms : List Message) (m : Message)
    → values_of k (ms ++ m ∷ [])
      ≡ (if str_eq k m.key then values_of k ms ++ m.value ∷ [] else values_of k ms)
values_of-append k [] m = refl
values_of-append k (n ∷ ms) m = ground (arith, values_of-append k ms m)

-- Recording a partition again, or for a new key, moves no other message.
put_keeps :
    (p : String → Option ℕ) (k j : String) (n q : ℕ)
    → (p k ≡ none) ⊎ (p k ≡ some n)
    → p j ≡ some q
    → put k (some n) p j ≡ some q
put_keeps p k j n q h e = ground (arith, eq_iff j k, h, e)

Placed-put :
    (p : String → Option ℕ) (m : Message) (ms : List Message)
    → (p m.key ≡ none) ⊎ (p m.key ≡ some m.partition)
    → Placed p ms
    → Placed (put m.key (some m.partition) p) (ms ++ m ∷ [])
Placed-put p m [] h tt = (rw (eq_refl m.key), tt)
Placed-put p m (n ∷ ms) h (e, r) =
    (put_keeps p m.key n.key m.partition n.partition h e, Placed-put p m ms h r)

pub record_values :
    (ms : List Message) (c : Consumer) (m : Message) (k : String)
    → ((k : String) → c.by_key k ≡ values_of k ms)
    → put m.key (c.by_key m.key ++ m.value ∷ []) c.by_key k ≡ values_of k (ms ++ m ∷ [])
record_values ms c m k h = ground (arith, eq_iff k m.key, h k, h m.key, values_of-append k ms m)

seen_cases :
    (seen : Option ℕ) (n : ℕ) → same_partition seen n ≡ true → (seen ≡ none) ⊎ (seen ≡ some n)
seen_cases none n h = inl refl
seen_cases (some q) n h = inr (ground arith)

unfoldable pub record_message : Message → Consumer → Consumer
record_message m c = record {
  by_key = put m.key (c.by_key m.key ++ m.value ∷ []) c.by_key;
  partition_of = put m.key (some m.partition) c.partition_of;
  committed = c.committed ++ m ∷ [];
  log = (c.log ++ recorded m ∷ []) ++ commit_sent m ∷ [];
}

Recorded-record_message :
    (ms : List Message) (c : Consumer) (m : Message)
    → (c.partition_of m.key ≡ none) ⊎ (c.partition_of m.key ≡ some m.partition)
    → Recorded ms c
    → Recorded (ms ++ m ∷ []) (record_message m c)
unfolding record_message
Recorded-record_message ms c m h r = record {
  values = λ k. record_values ms c m k r.values;
  partitions = Placed-put c.partition_of m ms h r.partitions;
  commits = ap (λ l. l ++ m ∷ []) r.commits;
}

-- What a round does when it returns nil.
pub consume_message_ok :
    (c : Consumer) (m : Message) (commit : Option KafkaError)
    → (consume_message commit m c).1 ≡ ok tt
    → ((c.partition_of m.key ≡ none) ⊎ (c.partition_of m.key ≡ some m.partition))
      × ((consume_message commit m c).0 ≡ record_message m c)
unfolding consume_message record_message
consume_message_ok c m none h =
    elim (Bool-cases (same_partition (c.partition_of m.key) m.partition)) [
      | inr f ↦ ground (arith, f, h)
      | inl t ↦ (seen_cases (c.partition_of m.key) m.partition t, rw t)
    ]
consume_message_ok c m (some e) h =
    elim (Bool-cases (same_partition (c.partition_of m.key) m.partition)) [
      | inr f ↦ ground (arith, f, h)
      | inl t ↦ ground (arith, t, h)
    ]

-- A round that fails leaves the commits and appends at most its own value.
pub consume_message_fails :
    (c : Consumer) (m : Message) (commit : Option KafkaError) (e : KafkaError)
    → (consume_message commit m c).1 ≡ err e
    → (consume_message commit m c).0.committed ≡ c.committed
unfolding consume_message
consume_message_fails c m none e h = ground arith
consume_message_fails c m (some x) e h = ground arith

-- A round that fails has recorded its message, and may then have sent its commit.
pub failed_log :
    (c : Consumer) (m : Message) (commit : Option KafkaError) (e : KafkaError)
    → (consume_message commit m c).1 ≡ err e
    → ((consume_message commit m c).0.log ≡ c.log ++ recorded m ∷ [])
      ⊎ ((consume_message commit m c).0.log ≡ (c.log ++ recorded m ∷ []) ++ commit_sent m ∷ [])
unfolding consume_message
failed_log c m none e h = ground arith
failed_log c m (some x) e h = ground arith

pub processed_first :
    (c : Consumer) (m : Message) (commit : Option KafkaError) (k : String)
    → (consume_message commit m c).0.by_key k
      ≡ put m.key (c.by_key m.key ++ m.value ∷ []) c.by_key k
unfolding consume_message
processed_first c m none k = ground arith
processed_first c m (some x) k = ground arith

pub Result-cases {ℓ κ} :
    {E : Type ℓ} {A : Type κ} (r : Result E A) → ((a : A) × (r ≡ ok a)) ⊎ ((e : E) × (r ≡ err e))
Result-cases (ok a) = inl (a, refl)
Result-cases (err e) = inr (e, refl)

module _ (fetches : ℕ → Result KafkaError Message) (commits : ℕ → Option KafkaError) where
  -- The messages of `n` fetches from the fetch `i` on, up to the first that fails.
  abbrev pub fetched : ℕ → ℕ → List Message
  fetched zero i = []
  fetched (suc n) i = elim (fetches i) [ err e ↦ [] | ok m ↦ m ∷ fetched n (suc i) ]

  round_ok :
      (n i : ℕ) (c : Consumer)
      → (consume_rounds fetches commits (suc n) i c).1 ≡ ok tt
      → (m : Message) × (fetches i ≡ ok m)
        × ((consume_message (commits i) m c).1 ≡ ok tt)
        × (consume_rounds fetches commits (suc n) i c
            ≡ consume_rounds fetches commits n (suc i) (consume_message (commits i) m c).0)
  unfolding consume_rounds
  round_ok n i c h = elim (Result-cases (fetches i)) [
    | inr (e, f) ↦ ground (arith, f, h)
    | inl (m, f) ↦ elim (Result-cases (consume_message (commits i) m c).1) [
      | inr (e, g) ↦ ground (arith, f, g, h)
      | inl (u, g) ↦ (m, f, g, ground (arith, f, g))
    ]
  ]

  append_fetched :
      (n i : ℕ) (ms : List Message) (m : Message)
      → fetches i ≡ ok m
      → (ms ++ m ∷ []) ++ fetched n (suc i) ≡ ms ++ fetched (suc n) i
  append_fetched n i [] m f = ground (arith, f)
  append_fetched n i (x ∷ ms) m f = ap (λ l. x ∷ l) (append_fetched n i ms m f)

  rounds-Recorded :
      (n i : ℕ) (c : Consumer) (ms : List Message)
      → Recorded ms c
      → (consume_rounds fetches commits n i c).1 ≡ ok tt
      → Recorded (ms ++ fetched n i) (consume_rounds fetches commits n i c).0
  unfolding consume_rounds
  rounds-Recorded zero i c ms r h = subst (λ l. Recorded l c) (sym (append-nil ms)) r
  rounds-Recorded (suc n) i c ms r h =
      let (m, f, g, e) = round_ok n i c h in
      let (p, q) = consume_message_ok c m (commits i) g in
      let here = subst (Recorded (ms ++ m ∷ [])) (sym q) (Recorded-record_message ms c m p r) in
      let next =
        rounds-Recorded n (suc i) (consume_message (commits i) m c).0 (ms ++ m ∷ []) here
          (sym (ap (λ x. x.1) e) ∙ h) in
      subst (λ l. Recorded l (consume_rounds fetches commits (suc n) i c).0)
        (append_fetched n i ms m f)
        (subst (λ x. Recorded ((ms ++ m ∷ []) ++ fetched n (suc i)) x.0) (sym e) next)

  -- When consumeGroup returns nil, it has recorded under each key exactly the values fetched with
  -- that key, in their order, has seen each key on one partition, and has committed every message
  -- it fetched, in order.
  pub consume_group-Recorded :
      (expect : ℕ)
      → (consume_group fetches commits expect).1 ≡ ok tt
      → Recorded (fetched expect 0) (consume_group fetches commits expect).0
  unfolding consume_group
  consume_group-Recorded expect h =
      rounds-Recorded expect 0 no_messages []
        (record { values = λ k. refl; partitions = tt; commits = refl }) h
