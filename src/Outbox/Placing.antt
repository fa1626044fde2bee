-- ===== src/Outbox/Placing.antt =====
-- What placing an order does to the tables.
use Prim.Native.String.{String}
use go_examples.Base.{
  ℕ, ◌≡◌, ◌∙◌, ap, Bool, true, false, none, Result, [], ◌∷◌, ◌++◌, arith, is_ok, ◌⊎◌, ok, inl, inr,
}
use go_examples.Outbox.Sql.{Database, Payload}
use go_examples.Outbox.{Connection, connected, OutboxError, place_order_on, place_order}

module _ (q : Database) where
  open q use {Db, outbox, orders, insert_order, insert_event, next_event}

  -- The database after the two inserts of an order.
  abbrev pub placed : String → Db → Db
  placed item d =
      let (d1, order_id) = insert_order item d in
      insert_event "order.placed" (record { order_id = order_id; item = item }) d1

  pub placed_tables :
      (item : String) (d : Db)
      → let p : Payload = record { order_id = q.next_order d; item = item } in
        (orders (placed item d) ≡ orders d ++ record { id = q.next_order d; item = item } ∷ [])
        × (outbox (placed item d)
            ≡ outbox d
              ++ record {
                event = record { id = next_event d; topic = "order.placed"; payload = p };
                dispatched = false;
              }
                ∷ [])
  placed_tables item d = ground (
    arith,
    q.last_insert_id item d,
    q.orders-insert_order item d,
    q.outbox-insert_order item d,
    q.next_event-insert_order item d,
    q.orders-insert_event "order.placed"
        (record { order_id = (insert_order item d).1; item = item }) (insert_order item d).0,
    q.outbox-insert_event "order.placed"
        (record { order_id = (insert_order item d).1; item = item }) (insert_order item d).0,
  )

  -- The transaction after its two inserts.
  abbrev filled : String → Db → q.Tx
  filled item d =
      let (t1, order_id) = q.tx_insert_order item (q.begin_tx d) in
      q.tx_insert_event "order.placed" (record { order_id = order_id; item = item }) t1

  order_in_tx :
      (item : String) (d : Db)
      → (q.view (q.tx_insert_order item (q.begin_tx d)).0 ≡ (insert_order item d).0)
        × ((q.tx_insert_order item (q.begin_tx d)).1 ≡ (insert_order item d).1)
  order_in_tx item d = (
    q.view-tx_insert_order item (q.begin_tx d)
        ∙ ap (λ x. (insert_order item x).0) (q.view-begin_tx d),
    q.tx_insert_order-reply item (q.begin_tx d)
        ∙ ap (λ x. (insert_order item x).1) (q.view-begin_tx d),
  )

  fill_tx_succeeds : (item : String) (d : Db) → q.commit (filled item d) ≡ placed item d
  fill_tx_succeeds item d =
      let (e, i) = order_in_tx item d in
      q.commit-view _
      ∙ q.view-tx_insert_event "order.placed" _ _
      ∙ ap (insert_event "order.placed" _) e
      ∙ ap
          (λ k.
            insert_event "order.placed" (record { order_id = k; item = item })
              (insert_order item d).0)
          i

  -- How a call on a connection with the database `d` ends: no transaction is left open, and the call fails and
  -- leaves the database as it was, or it succeeds and both inserts are in it.
  abbrev Outcome : String → Db → Connection q × Result OutboxError ℕ → Type 0
  Outcome item d (c, r) =
      (c.tx ≡ none)
      × (((is_ok r ≡ false) × (c.db ≡ d))
          ⊎ ((r ≡ ok (insert_order item d).1) × (c.db ≡ placed item d)))

  place_order_on-Outcome :
      (fails : ℕ → Bool) (item : String) (d : Db)
      → Outcome item d (place_order_on q fails item (connected q d))
  unfolding place_order_on
  place_order_on-Outcome fails item d =
      ground (arith, fill_tx_succeeds item d, (order_in_tx item d).1)

  place_order_on_ok :
      (fails : ℕ → Bool) (item : String) (d : Db)
      → ((i : ℕ) → fails i ≡ false)
      → is_ok (place_order_on q fails item (connected q d)).1 ≡ true
  unfolding place_order_on
  place_order_on_ok fails item d f = ground (arith, f 0, f 1, f 2, f 3, f 4)

  pub place_order_cases :
      (fails : ℕ → Bool) (item : String) (d : Db)
      → ((is_ok (place_order q fails item d).1 ≡ false) × ((place_order q fails item d).0 ≡ d))
        ⊎ (place_order q fails item d ≡ (placed item d, ok (insert_order item d).1))
  unfolding place_order
  place_order_cases fails item d = elim (place_order_on-Outcome fails item d).1 [
    | inl f ↦ inl f
    | inr (r, e) ↦ inr (λ i. (e i, r i))
  ]

  pub place_order_ok :
      (fails : ℕ → Bool) (item : String) (d : Db)
      → ((i : ℕ) → fails i ≡ false)
      → place_order q fails item d ≡ (placed item d, ok (insert_order item d).1)
  unfolding place_order
  place_order_ok fails item d f = elim (place_order_on-Outcome fails item d).1 [
    | inl (x, e) ↦ ground (arith, x, place_order_on_ok fails item d f)
    | inr (r, e) ↦ λ i. (e i, r i)
  ]

  -- On a connection without an open transaction, placing an order leaves none open and is all or nothing: either it
  -- fails and the database is as it was, or one order and one pending event that announces it are
  -- appended, and the order's id is returned; and it succeeds when none of its calls fails.
  pub place_order_atomic :
      (fails : ℕ → Bool) (item : String) (d : Db)
      → let (c, reply) = place_order_on q fails item (connected q d) in
        (c.tx ≡ none)
        × (((is_ok reply ≡ false) × (c.db ≡ d))
            ⊎ ((reply ≡ ok (q.next_order d))
                × (orders c.db ≡ orders d ++ record { id = q.next_order d; item = item } ∷ [])
                × (outbox c.db
                    ≡ outbox d
                      ++ record {
                        event = record {
                          id = next_event d;
                          topic = "order.placed";
                          payload = record { order_id = q.next_order d; item = item };
                        };
                        dispatched = false;
                      }
                        ∷ [])))
        × (((i : ℕ) → fails i ≡ false) → is_ok reply ≡ true)
  place_order_atomic fails item d =
      let (n, o) = place_order_on-Outcome fails item d in
      (
        n,
        elim o [
          | inl f ↦ inl f
          | inr (r, e) ↦
              let (x, y) = placed_tables item d in
              inr (r ∙ ap ok (q.last_insert_id item d), ap orders e ∙ x, ap outbox e ∙ y)
        ],
        place_order_on_ok fails item d,
      )
