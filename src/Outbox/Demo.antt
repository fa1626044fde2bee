-- ===== src/Outbox/Demo.antt =====
-- examples/outbox-pattern/main.go: the four demonstrations, with the statements that fail.
use Prim.Native.String.{String}
use go_examples.Base.{
  ℕ, ◌+◌, ◌≡◌, refl, sym, ap, ◌∙◌, Bool, true, false, [], ◌∷◌, ◌++◌, arith, length, length-append,
  length-map, Result, ok, err, leaf, wrap, ◌==◌, if◌then◌else◌,
}
use go_examples.Outbox.Sql.{Database, Event, pending}
use go_examples.Outbox.Publishing.{Broker, new_broker, member, publish}
use go_examples.Outbox.{
  World, OutboxError, sql_error, inserting_order, counting_orders, creating_schema, not_drained,
  place_order, pending_events, relay,
}
use go_examples.Outbox.Relay.{relay_drains, relay_crash}
use go_examples.Outbox.Rows.{pending-append, fresh_unseen, order_payload, row_payload}
use go_examples.Outbox.History.{Consistent, pending_events_ok}
use go_examples.Outbox.Placing.{placed, placed_tables, place_order_ok}

abbrev pub Fails : Type 0
Fails = ℕ → Bool

module _ (q : Database) where
  open q use {Db, created, orders, outbox, insert_order, select_pending, next_event}

  -- Commit the order, then crash before publishing. The count of the orders is only printed.
  unfoldable pub dual_write_problem : Fails → World q → World q × Result OutboxError (Unit {0})
  dual_write_problem fails w =
      let w' : World q = record w { db = (insert_order "keyboard" w.db).0 } in
      if fails 0
      then (w, err (wrap inserting_order (leaf sql_error)))
      else if fails 1
      then (w', err (wrap counting_orders (leaf sql_error)))
      else (w', ok tt)

  -- `if err := ...; err != nil { return err }`
  abbrev then_do :
      World q × Result OutboxError (Unit {0})
      → (World q → World q × Result OutboxError (Unit {0}))
      → World q × Result OutboxError (Unit {0})
  then_do (w, err e) f = (w, err e)
  then_do (w, ok u) f = f w

  abbrev store_order : Fails → String → World q → World q × Result OutboxError (Unit {0})
  store_order fails item w =
      let (d, reply) = place_order q fails item w.db in
      (record w { db = d }, elim reply [ ok i ↦ ok tt | err e ↦ err e ])

  abbrev count_pending :
      Fails
      → (ℕ → Result OutboxError (Unit {0}))
      → World q
      → World q × Result OutboxError (Unit {0})
  count_pending fails f w =
      (w, elim (pending_events q fails w.db) [ ok es ↦ f (length es) | err e ↦ err e ])

  unfoldable pub outbox_write : Fails → Fails → World q → World q × Result OutboxError (Unit {0})
  outbox_write f0 f1 w = then_do (store_order f0 "trackball" w) (count_pending f1 (λ n. ok tt))

  unfoldable pub relay_happy_path :
      Fails → Fails → Fails → World q → World q × Result OutboxError (Unit {0})
  relay_happy_path f0 f1 f2 w = then_do (relay q false f0 f1 w) (count_pending f2 (λ n. ok tt))

  unfoldable pub relay_crash_window :
      Fails
      → Fails
      → Fails
      → Fails
      → Fails
      → Fails
      → World q
      → World q × Result OutboxError (Unit {0})
  relay_crash_window f0 f1 f2 f3 f4 f5 w = then_do (store_order f0 "desk mat" w) λ w1.
      then_do (relay q true f1 f2 w1) λ w2.
        then_do (relay q false f3 f4 w2)
          (count_pending f5 (λ n. if n == 0 then ok tt else err (leaf not_drained)))

  -- `run`, given whether Init fails and the statements that fail of each call, by the call's place.
  unfoldable pub run : Bool → (ℕ → Fails) → World q × Result OutboxError (Unit {0})
  unfolding dual_write_problem outbox_write relay_happy_path relay_crash_window
  run init_fails f =
      let w : World q = record { db = created; broker = new_broker } in
      if init_fails
      then (w, err (wrap creating_schema (leaf sql_error)))
      else then_do (dual_write_problem (f 0) w) λ w1. then_do (outbox_write (f 1) (f 2) w1) λ w2.
        then_do (relay_happy_path (f 3) (f 4) (f 5) w2)
          (relay_crash_window (f 6) (f 7) (f 8) (f 9) (f 10) (f 11))

  dual_write_world :
      (fails : Fails) (w : World q)
      → fails 0 ≡ false
      → (dual_write_problem fails w).0 ≡ record w { db = (insert_order "keyboard" w.db).0 }
  unfolding dual_write_problem
  dual_write_world fails w f = ground arith

  paired_length : (w : World q) → Consistent q w → length (orders w.db) ≡ length (outbox w.db)
  paired_length w v =
      sym (length-map (orders w.db) order_payload)
      ∙ ap length v.paired
      ∙ length-map (outbox w.db) row_payload

  more_orders : (d : Db) → length (orders (insert_order "keyboard" d).0) ≡ length (orders d) + 1
  more_orders d = ap length (q.orders-insert_order "keyboard" d) ∙ length-append (orders d) _

  -- The dual write breaks the pairing of orders and events: the order has no event in the outbox,
  -- and none was published, so no relay will ever announce it.
  pub dual_write_inconsistent :
      (fails : Fails) (w : World q)
      → fails 0 ≡ false
      → Consistent q w
      → let w' = (dual_write_problem fails w).0 in
        (outbox w'.db ≡ outbox w.db)
        × (w'.broker ≡ w.broker)
        × (length (orders w'.db) ≡ length (orders w.db) + 1)
        × ¬ (Consistent q w')
  dual_write_inconsistent fails w f v =
      let d = (insert_order "keyboard" w.db).0 in
      rw (dual_write_world fails w f) (
        q.outbox-insert_order "keyboard" w.db,
        refl,
        more_orders w.db,
        λ v'. omega (
          arith,
          more_orders w.db,
          paired_length w v,
          paired_length (record w { db = d }) v',
          ap length (q.outbox-insert_order "keyboard" w.db),
        ),
      )

  placed_pending :
      (item : String) (w : World q)
      → Consistent q w
      → select_pending w.db ≡ []
      → (e : Event) × (select_pending (placed q item w.db) ≡ e ∷ [])
        × (member e.id w.broker.seen ≡ false)
  placed_pending item w v p =
      let (o, r) = placed_tables q item w.db in
      (
        record {
          id = next_event w.db;
          topic = "order.placed";
          payload = record { order_id = q.next_order w.db; item = item };
        },
        q.select_pending_lem _
            ∙ ap pending r
            ∙ pending-append (outbox w.db) _ refl
            ∙ ap
                (λ es.
                  es
                  ++ record {
                    id = next_event w.db;
                    topic = "order.placed";
                    payload = record { order_id = q.next_order w.db; item = item };
                  }
                    ∷ [])
                (sym (q.select_pending_lem w.db) ∙ p),
        fresh_unseen (next_event w.db) (outbox w.db) w.broker.seen (q.next_event_fresh w.db)
            v.known,
      )

  -- What the broker counts when one unseen event is published twice.
  publish_twice :
      (e : Event) (b : Broker)
      → member e.id b.seen ≡ false
      → let b' = publish e (publish e b) in
        (length b'.delivered ≡ length b.delivered + 1) × (b'.dupes ≡ b.dupes + 1)
  unfolding publish
  publish_twice e b h = ground (arith, length-append b.delivered ((e.topic, e.payload) ∷ []))

  -- The crash window, when no statement fails and the outbox starts drained: the order's event is
  -- delivered once, its redelivery is counted as a duplicate, and the outbox is drained again.

  pub relay_crash_window_lem :
      (f0 f1 f2 f3 f4 f5 : Fails) (w : World q)
      → ((i : ℕ) → f0 i ≡ false)
      → ((i : ℕ) → f1 i ≡ false)
      → ((i : ℕ) → f3 i ≡ false)
      → ((i : ℕ) → f4 i ≡ false)
      → ((i : ℕ) → f5 i ≡ false)
      → Consistent q w
      → select_pending w.db ≡ []
      → let (w', reply) = relay_crash_window f0 f1 f2 f3 f4 f5 w in
        (reply ≡ ok tt)
        × (select_pending w'.db ≡ [])
        × (length w'.broker.delivered ≡ length w.broker.delivered + 1)
        × (w'.broker.dupes ≡ w.broker.dupes + 1)
  unfolding relay_crash_window
  relay_crash_window_lem f0 f1 f2 f3 f4 f5 w h0 h1 h3 h4 h5 v p =
      let w1 : World q = record w { db = placed q "desk mat" w.db } in
      let w2 = (relay q true f1 f2 w1).0 in
      let w3 = (relay q false f3 f4 w2).0 in
      let (e, pe, unseen) = placed_pending "desk mat" w v p in
      let (r1, same, b1) = relay_crash q f1 f2 w1 h1 in
      let (r2, drained, o, b2) = relay_drains q f3 f4 w2 h3 h4 in
      let (more, dupe) = publish_twice e w.broker unseen in
      ground (
        arith,
        place_order_ok q f0 "desk mat" w.db h0,
        pending_events_ok q f5 w3.db h5,
        pe,
        r1,
        same,
        b1,
        r2,
        drained,
        b2,
        more,
        dupe,
      )
