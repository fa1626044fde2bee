-- ===== src/Kafka/AtLeastOnce.antt =====
-- A message is committed only after it has been processed.
use Prim.Native.String.{String}
use text.Mathlib.Text.{◌==◌ as str_eq}
use text.Mathlib.TextEquality.{eq_iff}
use mathlib.Core.Path.{subst}
use mathlib.Core.List.{append-nil, append_assoc}
use go_examples.Base.{
  ℕ, zero, suc, ◌≡◌, refl, sym, ap, ◌∙◌, List, [], ◌∷◌, ◌++◌, Option, arith, Result, ok, err,
  if◌then◌else◌, inl, inr,
}
use go_examples.Kafka.{
  Message, KafkaError, Deed, recorded, commit_sent, Consumer, consume_message, consume_rounds,
  consume_group, no_messages,
}
use go_examples.Kafka.Consuming.{
  values_of, Result-cases, consume_message_fails, consume_message_ok, processed_first, failed_log,
  record_values, record_message,
}

-- Each message recorded, and then its commit sent.
abbrev pub rounds : List Message → List Deed
rounds [] = []
rounds (m ∷ ms) = recorded m ∷ commit_sent m ∷ rounds ms

-- A round that was not finished.
abbrev pub IsCut : List Deed → Type 0
IsCut [] = Unit {0}
IsCut (recorded m ∷ []) = Unit {0}
IsCut (recorded m ∷ commit_sent n ∷ []) = n ≡ m
IsCut _ = ⊥

record Synced (c : Consumer) : Type 0 where
  values : (k : String) → c.by_key k ≡ values_of k c.committed
  deeds : c.log ≡ rounds c.committed

-- Under each key the committed values come first among the processed ones; and each commit that was sent
-- is that of the message just recorded.
pub record Ahead (c : Consumer) : Type 0 where
  pub values : (k : String) → (rest : List String) × (c.by_key k ≡ values_of k c.committed ++ rest)
  pub deeds : (cut : List Deed) × IsCut cut × (c.log ≡ rounds c.committed ++ cut)

Synced-Ahead : (c : Consumer) → Synced c → Ahead c
Synced-Ahead c s = record {
  values = λ k. ([], s.values k ∙ sym (append-nil (values_of k c.committed)));
  deeds = ([], tt, s.deeds ∙ sym (append-nil (rounds c.committed)));
}

rounds-append :
    (ms : List Message) (m : Message)
    → rounds (ms ++ m ∷ []) ≡ (rounds ms ++ recorded m ∷ []) ++ commit_sent m ∷ []
rounds-append [] m = refl
rounds-append (n ∷ ms) m = ap (λ l. recorded n ∷ commit_sent n ∷ l) (rounds-append ms m)

failed_deeds :
    (c : Consumer) (m : Message) (commit : Option KafkaError) (e : KafkaError)
    → Synced c
    → (consume_message commit m c).1 ≡ err e
    → (cut : List Deed) × IsCut cut
      × ((consume_message commit m c).0.log
          ≡ rounds (consume_message commit m c).0.committed ++ cut)
failed_deeds c m commit e s h =
    let same = ap rounds (sym (consume_message_fails c m commit e h)) in
    elim (failed_log c m commit e h) [
      | inl l ↦ (recorded m ∷ [], tt, l ∙ ap (λ x. x ++ recorded m ∷ []) (s.deeds ∙ same))
      | inr l ↦ (
        recorded m ∷ commit_sent m ∷ [],
        refl,
        l
            ∙ append_assoc c.log (recorded m ∷ []) (commit_sent m ∷ [])
            ∙ ap (λ x. x ++ recorded m ∷ commit_sent m ∷ []) (s.deeds ∙ same),
      )
    ]

failed_values :
    (c : Consumer) (m : Message) (commit : Option KafkaError) (e : KafkaError)
    → Synced c
    → (consume_message commit m c).1 ≡ err e
    → (k : String)
    → (rest : List String) × ((consume_message commit m c).0.by_key k
        ≡ values_of k (consume_message commit m c).0.committed ++ rest)
failed_values c m commit e s h k = (
  (if str_eq k m.key then m.value ∷ [] else []),
  ground (
    arith,
    processed_first c m commit k,
    consume_message_fails c m commit e h,
    s.values k,
    s.values m.key,
    eq_iff k m.key,
    append-nil (values_of k c.committed),
  ),
)

failed_round :
    (c : Consumer) (m : Message) (commit : Option KafkaError) (e : KafkaError)
    → Synced c
    → (consume_message commit m c).1 ≡ err e
    → Ahead (consume_message commit m c).0
failed_round c m commit e s h = record {
  values = failed_values c m commit e s h;
  deeds = failed_deeds c m commit e s h;
}

good_round :
    (c : Consumer) (m : Message) (commit : Option KafkaError)
    → Synced c
    → (consume_message commit m c).1 ≡ ok tt
    → Synced (consume_message commit m c).0
unfolding record_message
good_round c m commit s h = subst Synced (sym (consume_message_ok c m commit h).1) (record {
  values = λ k. record_values c.committed c m k s.values;
  deeds =
      ap (λ l. (l ++ recorded m ∷ []) ++ commit_sent m ∷ []) s.deeds
      ∙ sym (rounds-append c.committed m);
})

module _ (fetches : ℕ → Result KafkaError Message) (commits : ℕ → Option KafkaError) where
  abbrev after : ℕ → ℕ → Consumer → Consumer
  after n i c = (consume_rounds fetches commits n i c).0

  after_fetch_error :
      (n i : ℕ) (c : Consumer) (e : KafkaError) → fetches i ≡ err e → c ≡ after (suc n) i c
  unfolding consume_rounds
  after_fetch_error n i c e f = ground (arith, f)

  after_failed_round :
      (n i : ℕ) (c : Consumer) (m : Message) (e : KafkaError)
      → fetches i ≡ ok m
      → (consume_message (commits i) m c).1 ≡ err e
      → (consume_message (commits i) m c).0 ≡ after (suc n) i c
  unfolding consume_rounds
  after_failed_round n i c m e f g = ground (arith, f, g)

  after_good_round :
      (n i : ℕ) (c : Consumer) (m : Message)
      → fetches i ≡ ok m
      → (consume_message (commits i) m c).1 ≡ ok tt
      → after n (suc i) (consume_message (commits i) m c).0 ≡ after (suc n) i c
  unfolding consume_rounds
  after_good_round n i c m f g = ground (arith, f, g)

  rounds-Ahead : (n i : ℕ) (c : Consumer) → Synced c → Ahead (after n i c)
  unfolding consume_rounds
  rounds-Ahead zero i c s = Synced-Ahead c s
  rounds-Ahead (suc n) i c s = elim (Result-cases (fetches i)) [
    | inr (e, f) ↦ subst Ahead (after_fetch_error n i c e f) (Synced-Ahead c s)
    | inl (m, f) ↦ elim (Result-cases (consume_message (commits i) m c).1) [
      | inr (e, g) ↦
          subst Ahead (after_failed_round n i c m e f g) (failed_round c m (commits i) e s g)
      | inl (u, g) ↦ subst Ahead (after_good_round n i c m f g) (
          rounds-Ahead n (suc i) (consume_message (commits i) m c).0
            (good_round c m (commits i) s g))
    ]
  ]

  -- However consumeGroup ends, with nil or with an error of a fetch, of the partition check or of a
  -- commit, the values of the committed messages of each key are the first ones processed under
  -- that key; and the commit of a message was sent only just after the message was processed, whether
  -- it was acknowledged or not.
  pub consume_group-Ahead : (expect : ℕ) → Ahead (consume_group fetches commits expect).0
  unfolding consume_group
  consume_group-Ahead expect =
      rounds-Ahead expect 0 no_messages (record { values = λ k. refl; deeds = refl })
