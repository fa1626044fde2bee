-- ===== src/Outbox/Relay.antt =====
-- outbox.go: what one run of the relay does.
use go_examples.Base.{
  ℕ, ◌≡◌, refl, sym, ap, ◌∙◌, Bool, true, false, List, [], ◌∷◌, map, arith, take, ok, if◌then◌else◌,
}
use go_examples.Outbox.Sql.{Database, Event, Row, pending, mark_row}
use go_examples.Outbox.Publishing.{Broker, member, publish}
use go_examples.Outbox.{World, relay_loop, relay, pending_events, mark_dispatched}

abbrev pub ids : List Event → List ℕ
ids [] = []
ids (e ∷ es) = e.id ∷ ids es

-- The rows with the given ids marked.
abbrev pub mark_in : List ℕ → List Row → List Row
mark_in is [] = []
mark_in is (r ∷ rs) =
    (if member r.event.id is then record r { dispatched = true } else r) ∷ mark_in is rs

mark_in-nil : (rs : List Row) → mark_in [] rs ≡ rs
mark_in-nil [] = refl
mark_in-nil (r ∷ rs) = rw (mark_in-nil rs)

mark_in-cons :
    (i : ℕ) (is : List ℕ) (rs : List Row) → mark_in is (map (mark_row i) rs) ≡ mark_in (i ∷ is) rs
mark_in-cons i is [] = refl
mark_in-cons i is (r ∷ rs) = ground (arith, mark_in-cons i is rs)

-- Every pending row has one of the ids.
abbrev PendingIn : List ℕ → List Row → Type 0
PendingIn is [] = Unit
PendingIn is (r ∷ rs) = (r.dispatched ≡ false → member r.event.id is ≡ true) × PendingIn is rs

PendingIn-cons : (i : ℕ) (is : List ℕ) (rs : List Row) → PendingIn is rs → PendingIn (i ∷ is) rs
PendingIn-cons i is [] h = tt
PendingIn-cons i is (r ∷ rs) h = (λ d. ground (arith, h.0 d), PendingIn-cons i is rs h.1)

PendingIn-if :
    (b : Bool) (e : Event) (es : List Event) (rs : List Row)
    → PendingIn (ids es) rs
    → PendingIn (ids (if b then es else e ∷ es)) rs
PendingIn-if true e es rs h = h
PendingIn-if false e es rs h = PendingIn-cons e.id (ids es) rs h

pending-PendingIn : (rs : List Row) → PendingIn (ids (pending rs)) rs
pending-PendingIn [] = tt
pending-PendingIn (r ∷ rs) =
    ((λ d. ground arith), PendingIn-if r.dispatched r.event (pending rs) rs (pending-PendingIn rs))

pending-mark_in : (is : List ℕ) (rs : List Row) → PendingIn is rs → pending (mark_in is rs) ≡ []
pending-mark_in is [] h = refl
pending-mark_in is (r ∷ rs) h = ground (arith, pending-mark_in is rs h.1, h.0)

abbrev pub publish_all : List Event → Broker → Broker
publish_all [] b = b
publish_all (e ∷ es) b = publish_all es (publish e b)

module _ (q : Database) where
  open q use {Db, outbox, orders, mark, select_pending}

  pub relay_step :
      (fails : ℕ → Bool) (e : Event) (es : List Event) (w : World q)
      → fails e.id ≡ false
      → relay_loop q false fails (e ∷ es) w
        ≡ relay_loop q false fails es (record { db = mark e.id w.db; broker = publish e w.broker })
  unfolding relay_loop mark_dispatched
  relay_step fails e es w f = ground arith

  pub relay_step_fails :
      (fails : ℕ → Bool) (e : Event) (es : List Event) (w : World q)
      → fails e.id ≡ true
      → (relay_loop q false fails (e ∷ es) w).0 ≡ record w { broker = publish e w.broker }
  unfolding relay_loop mark_dispatched
  relay_step_fails fails e es w f = ground arith

  -- A run in which nothing fails publishes every event and marks it.
  relay_loop_all :
      (fails : ℕ → Bool) (es : List Event) (w : World q)
      → ((i : ℕ) → fails i ≡ false)
      → let (w', reply) = relay_loop q false fails es w in
        (reply ≡ ok tt)
        × (outbox w'.db ≡ mark_in (ids es) (outbox w.db))
        × (orders w'.db ≡ orders w.db)
        × (w'.broker ≡ publish_all es w.broker)
  unfolding relay_loop
  relay_loop_all fails [] w f = (refl, sym (mark_in-nil (outbox w.db)), refl, refl)
  relay_loop_all fails (e ∷ es) w f =
      let w1 : World q = record { db = mark e.id w.db; broker = publish e w.broker } in
      let (r, o, same, b) = relay_loop_all fails es w1 f in
      rw (relay_step fails e es w (f e.id)) (
        r,
        o
            ∙ ap (mark_in (ids es)) (q.outbox-mark e.id w.db)
            ∙ mark_in-cons e.id (ids es) (outbox w.db),
        same ∙ q.orders-mark e.id w.db,
        b,
      )

  relay_query :
      (crash : Bool) (query_fails fails : ℕ → Bool) (w : World q)
      → ((i : ℕ) → query_fails i ≡ false)
      → relay q crash query_fails fails w ≡ relay_loop q crash fails (select_pending w.db) w
  unfolding relay pending_events
  relay_query crash query_fails fails w qf = ground (arith, qf 0, qf 1, qf 2)

  -- A run of the relay in which nothing fails publishes every pending event, in the order of the
  -- ids, leaves none pending, and keeps the orders.
  pub relay_drains :
      (query_fails fails : ℕ → Bool) (w : World q)
      → ((i : ℕ) → query_fails i ≡ false)
      → ((i : ℕ) → fails i ≡ false)
      → let (w', reply) = relay q false query_fails fails w in
        (reply ≡ ok tt)
        × (select_pending w'.db ≡ [])
        × (orders w'.db ≡ orders w.db)
        × (w'.broker ≡ publish_all (select_pending w.db) w.broker)
  relay_drains query_fails fails w qf f =
      let (r, o, same, b) = relay_loop_all fails (select_pending w.db) w f in
      let drained =
        pending-mark_in (ids (pending (outbox w.db))) (outbox w.db)
          (pending-PendingIn (outbox w.db)) in
      rw (relay_query false query_fails fails w qf)
        (r, q.select_pending_lem _ ∙ ap pending o ∙ rw (q.select_pending_lem w.db) drained, same, b)

  crash_loop :
      (fails : ℕ → Bool) (es : List Event) (w : World q)
      → let (w', reply) = relay_loop q true fails es w in
        (reply ≡ ok tt) × (w'.db ≡ w.db) × (w'.broker ≡ publish_all (take 1 es) w.broker)
  unfolding relay_loop
  crash_loop fails [] w = (refl, refl, refl)
  crash_loop fails (e ∷ es) w = (refl, refl, refl)

  -- A crash after the first publish leaves the database as it was, so the rerun publishes the
  -- first event a second time.
  pub relay_crash :
      (query_fails fails : ℕ → Bool) (w : World q)
      → ((i : ℕ) → query_fails i ≡ false)
      → let (w', reply) = relay q true query_fails fails w in
        (reply ≡ ok tt)
        × (w'.db ≡ w.db)
        × (w'.broker ≡ publish_all (take 1 (select_pending w.db)) w.broker)
  relay_crash query_fails fails w qf =
      rw (relay_query true query_fails fails w qf) (crash_loop fails (select_pending w.db) w)
