-- ===== src/Outbox/History.antt =====
-- Any history of orders and relay runs, with any statements failing and any runs crashing.
use Prim.Native.String.{String}
use go_examples.Base.{
  ℕ, ◌≡◌, refl, sym, ap, ◌∙◌, Bool, true, false, List, [], ◌∷◌, ◌++◌, map, arith, length, All, wrap,
  leaf, ◌⊎◌, ok, err, length-append, Bool-cases, inl, inr,
}
use mathlib.Core.List.{map-append}
use go_examples.Outbox.Sql.{Database, Event}
use go_examples.Outbox.Publishing.{new_broker, member, publish}
use go_examples.Outbox.{
  World, OutboxError, sql_error, querying_outbox, scanning_event, iterating_outbox, place_order,
  relay_loop, relay, pending_events,
}
use go_examples.Outbox.Relay.{relay_drains, relay_step, relay_step_fails}
use go_examples.Outbox.Rows.{
  row_ids, Distinct, Covered, Known, order_payload, row_payload, Known-append, Covered-publish,
  Covered-mark, Covered-append, row_ids-mark, payloads-mark, Known-ids, member-publish,
  All-dispatched, MemberAll-pending,
}
use go_examples.Outbox.Placing.{placed, placed_tables, place_order_cases}

-- What clients and the relay do, with the statements that fail.
pub data Op : Type 0 where
  place : (ℕ → Bool) → String → Op
  relays : Bool → (ℕ → Bool) → (ℕ → Bool) → Op

-- What the outbox promises at every moment.
pub record Consistent (q : Database) (w : World q) : Type 0 where
  -- An event marked as dispatched has been published.
  pub covered : Covered w.broker.seen (q.outbox w.db)
  -- No event is delivered twice.
  pub distinct : Distinct w.broker.seen
  pub counted : length w.broker.delivered ≡ length w.broker.seen
  -- Only committed events are delivered.
  pub known : Known (q.outbox w.db) w.broker.seen
  -- Orders and events come in pairs.
  pub paired : map order_payload (q.orders w.db) ≡ map row_payload (q.outbox w.db)

module _ (q : Database) where
  open q use {
    Db, outbox, orders, created, mark, select_pending, insert_order, insert_event, next_event,
  }

  created-Consistent : Consistent q (record { db = created; broker = new_broker })
  created-Consistent = record {
    covered = rw q.outbox-created tt;
    distinct = tt;
    counted = refl;
    known = tt;
    paired = rw (q.orders-created, q.outbox-created);
  }

  publish-Consistent :
      (e : Event) (w : World q)
      → member e.id (row_ids (outbox w.db)) ≡ true
      → Consistent q w
      → Consistent q (record w { broker = publish e w.broker })
  unfolding publish
  publish-Consistent e w m v = record {
    covered = Covered-publish e w.broker (outbox w.db) v.covered;
    distinct = ground (arith, v.distinct);
    counted =
        ground (arith, v.counted, length-append w.broker.delivered ((e.topic, e.payload) ∷ []));
    known = ground (arith, v.known);
    paired = v.paired;
  }

  mark-Consistent :
      (i : ℕ) (w : World q)
      → member i w.broker.seen ≡ true
      → Consistent q w
      → Consistent q (record w { db = mark i w.db })
  mark-Consistent i w m v = record {
    covered = rw (q.outbox-mark i w.db) (Covered-mark w.broker.seen i (outbox w.db) m v.covered);
    distinct = v.distinct;
    counted = v.counted;
    known =
        Known-ids _ (outbox w.db) w.broker.seen
          (ap row_ids (q.outbox-mark i w.db) ∙ row_ids-mark i (outbox w.db)) v.known;
    paired =
        rw (q.orders-mark i w.db, q.outbox-mark i w.db)
          (v.paired ∙ sym (payloads-mark i (outbox w.db)));
  }

  pub pending_events_ok :
      (fails : ℕ → Bool) (d : Db)
      → ((i : ℕ) → fails i ≡ false)
      → pending_events q fails d ≡ ok (select_pending d)
  unfolding pending_events
  pending_events_ok fails d f = ground (arith, f 0, f 1, f 2)

  pub placed-Consistent :
      (item : String) (w : World q)
      → Consistent q w
      → Consistent q (record w { db = placed q item w.db })
  placed-Consistent item w v =
      let (o, r) = placed_tables q item w.db in
      record {
        covered = rw r (Covered-append w.broker.seen _ (outbox w.db) refl v.covered);
        distinct = v.distinct;
        counted = v.counted;
        known = rw r (Known-append (outbox w.db) _ w.broker.seen v.known);
        paired =
            rw (o, r)
              (map-append order_payload (orders w.db) _
                ∙ ap (λ ps. ps ++ record { order_id = q.next_order w.db; item = item } ∷ [])
                    v.paired
                ∙ sym (map-append row_payload (outbox w.db) _));
      }

  place_order-Consistent :
      (fails : ℕ → Bool) (item : String) (w : World q)
      → Consistent q w
      → Consistent q (record w { db = (place_order q fails item w.db).0 })
  place_order-Consistent fails item w v = elim (place_order_cases q fails item w.db) [
    | inl failed ↦ rw (failed.1) v
    | inr e ↦ rw e (placed-Consistent item w v)
  ]

  -- The events still to be published are rows of the table.
  abbrev Listed : Db → List Event → Type 0
  Listed d = All λ e. member e.id (row_ids (outbox d)) ≡ true

  Listed-mark : (i : ℕ) (d : Db) (es : List Event) → Listed d es → Listed (mark i d) es
  Listed-mark i d [] l = tt
  Listed-mark i d (e ∷ es) l =
      (rw (q.outbox-mark i d, row_ids-mark i (outbox d)) l.0, Listed-mark i d es l.1)

  Listed-pending : (d : Db) → Listed d (select_pending d)
  Listed-pending d = rw (q.select_pending_lem d) (MemberAll-pending (outbox d))

  pending_events_cases :
      (query_fails : ℕ → Bool) (d : Db)
      → ((x : OutboxError) × (pending_events q query_fails d ≡ err x))
        ⊎ (pending_events q query_fails d ≡ ok (select_pending d))
  unfolding pending_events
  pending_events_cases query_fails d = elim (Bool-cases (query_fails 0)) [
    | inl a ↦ inl (wrap querying_outbox (leaf sql_error), rw a)
    | inr a ↦ elim (Bool-cases (query_fails 1)) [
      | inl b ↦ inl (wrap scanning_event (leaf sql_error), rw (a, b))
      | inr b ↦ elim (Bool-cases (query_fails 2)) [
        | inl c ↦ inl (wrap iterating_outbox (leaf sql_error), rw (a, b, c))
        | inr c ↦ inr (rw (a, b, c))
      ]
    ]
  ]

  relay_loop-Consistent :
      (crash : Bool) (fails : ℕ → Bool) (es : List Event) (w : World q)
      → Listed w.db es
      → Consistent q w
      → Consistent q (relay_loop q crash fails es w).0
  unfolding relay_loop
  relay_loop-Consistent crash fails [] w l v = v
  relay_loop-Consistent true fails (e ∷ es) w l v = publish-Consistent e w l.0 v
  relay_loop-Consistent false fails (e ∷ es) w l v = elim (Bool-cases (fails e.id)) [
    | inl f ↦ rw (relay_step_fails q fails e es w f) (publish-Consistent e w l.0 v)
    | inr f ↦ rw (relay_step q fails e es w f) (
        relay_loop-Consistent false fails es _ (Listed-mark e.id w.db es l.1) (
          mark-Consistent e.id (record w { broker = publish e w.broker })
            (member-publish e w.broker) (publish-Consistent e w l.0 v)))
  ]

  relay-Consistent :
      (crash : Bool) (query_fails fails : ℕ → Bool) (w : World q)
      → Consistent q w
      → Consistent q (relay q crash query_fails fails w).0
  unfolding relay
  relay-Consistent crash query_fails fails w v = elim (pending_events_cases query_fails w.db) [
    | inl (x, e) ↦ rw (e, relay) v
    | inr e ↦
        rw (e, relay)
          (relay_loop-Consistent crash fails (select_pending w.db) w (Listed-pending w.db) v)
  ]

  unfoldable pub run : List Op → World q → World q
  run [] w = w
  run (place fails item ∷ os) w = run os (record w { db = (place_order q fails item w.db).0 })
  run (relays crash query_fails fails ∷ os) w = run os (relay q crash query_fails fails w).0

  run-Consistent : (os : List Op) (w : World q) → Consistent q w → Consistent q (run os w)
  unfolding run
  run-Consistent [] w v = v
  run-Consistent (place fails item ∷ os) w v =
      run-Consistent os _ (place_order-Consistent fails item w v)
  run-Consistent (relays crash query_fails fails ∷ os) w v =
      run-Consistent os _ (relay-Consistent crash query_fails fails w v)

  abbrev pub fresh : World q
  fresh = record { db = created; broker = new_broker }

  -- At every moment of every history, from the created tables and the empty broker on: an event
  -- marked as dispatched was published, no event was delivered twice, only committed events were
  -- delivered, and orders and events come in pairs.
  pub history-Consistent : (os : List Op) → Consistent q (run os fresh)
  history-Consistent os = run-Consistent os fresh created-Consistent

  -- Nothing is lost: after any history, one run of the relay in which nothing fails has published
  -- every event of the table, each delivered once, and leaves none pending.
  pub history_delivers :
      (os : List Op) (query_fails fails : ℕ → Bool)
      → ((i : ℕ) → query_fails i ≡ false)
      → ((i : ℕ) → fails i ≡ false)
      → let w = (relay q false query_fails fails (run os fresh)).0 in
        All (λ r. member r.event.id w.broker.seen ≡ true) (outbox w.db)
        × Distinct w.broker.seen
        × (length w.broker.delivered ≡ length w.broker.seen)
        × (select_pending w.db ≡ [])
  history_delivers os query_fails fails qf f =
      let w = (relay q false query_fails fails (run os fresh)).0 in
      let v = relay-Consistent false query_fails fails _ (history-Consistent os) in
      let (r, p, o, b) = relay_drains q query_fails fails (run os fresh) qf f in
      (
        All-dispatched (outbox w.db) w.broker.seen (sym (q.select_pending_lem w.db) ∙ p) v.covered,
        v.distinct,
        v.counted,
        p,
      )
