-- ===== src/Outbox.antt =====
-- examples/outbox-pattern/outbox.go, over an interface of the SQL engine. Each statement may fail,
-- as the argument `fails` says of the statement's place in its function; a statement that fails has no effect.
pub mod Sql
pub mod Publishing
pub mod Relay
pub mod Rows
pub mod Placing
pub mod History
pub mod Demo
mod Memory
mod Tests
use Prim.Native.String.{String}
use go_examples.Base.{
  ℕ, zero, suc, ◌+◌, Bool, true, false, not, List, [], ◌∷◌, Option, none, some, Result, ok, err,
  Error, leaf, wrap, if◌then◌else◌,
}
use Sql.{Database, Event, Payload}
use Publishing.{Broker, publish}

pub data Leaf : Type 0 where
  sql_error not_drained : Leaf

-- The contexts of fmt.Errorf.
pub data Context : Type 0 where
  beginning_tx inserting_order reading_order_id inserting_outbox_event committing : Context
  querying_outbox scanning_event iterating_outbox : Context
  counting_orders creating_schema : Context
  marking_event : ℕ → Context

abbrev pub OutboxError : Type 0
OutboxError = Error Context Leaf

abbrev sql : Context → OutboxError
sql c = wrap c (leaf sql_error)

module _ (q : Database) where
  open q use {Db, Tx, begin_tx, tx_insert_order, tx_insert_event, commit, select_pending, mark}

  -- The database and its transaction, if one is open.
  pub record Connection : Type 0 where
    pub db : Db
    pub tx : Option Tx

  abbrev pub connected : Db → Connection
  connected d = record { db = d; tx = none }

  -- The deferred `tx.Rollback`, which does nothing after Commit.
  abbrev pub rollback : Connection → Connection
  rollback c = record c { tx = none }

  -- `tx.Commit`, of which nothing is left when it fails.
  abbrev pub commit_tx : Bool → Connection → Option Tx → Connection × Result OutboxError (Unit {0})
  commit_tx fails c none = (c, err (sql committing))
  commit_tx fails c (some t) =
      if fails
      then (rollback c, err (sql committing))
      else (record { db = commit t; tx = none }, ok tt)

  -- A statement of the transaction.
  abbrev pub exec_order : String → Connection → Option Tx → Connection × ℕ
  exec_order item c none = (c, 0)
  exec_order item c (some t) =
      let (t', i) = tx_insert_order item t in (record c { tx = some t' }, i)

  abbrev pub exec_event : Payload → Connection → Option Tx → Connection
  exec_event p c none = c
  exec_event p c (some t) = record c { tx = some (tx_insert_event "order.placed" p t) }

  abbrev pub with_order_id :
      ℕ → Connection × Result OutboxError (Unit {0}) → Connection × Result OutboxError ℕ
  with_order_id i (c, err e) = (c, err e)
  with_order_id i (c, ok u) = (c, ok i)

  -- `PlaceOrder` after BeginTx, less the deferred Rollback.
  abbrev pub fill_tx : (ℕ → Bool) → String → Connection → Connection × Result OutboxError ℕ
  fill_tx fails item c =
      let (c1, order_id) = exec_order item c c.tx in
      let c2 = exec_event (record { order_id = order_id; item = item }) c1 c1.tx in
      if fails 1
      then (c, err (sql inserting_order))
      else if fails 2
      then (c1, err (sql reading_order_id))
      else if fails 3
      then (c1, err (sql inserting_outbox_event))
      else with_order_id order_id (commit_tx (fails 4) c2 c2.tx)

  abbrev pub rolled_back : Connection × Result OutboxError ℕ → Connection × Result OutboxError ℕ
  rolled_back (c, r) = (rollback c, r)

  -- `fails`: BeginTx, the first Exec, LastInsertId, the second Exec and Commit.
  unfoldable pub place_order_on :
      (ℕ → Bool) → String → Connection → Connection × Result OutboxError ℕ
  place_order_on fails item c =
      if fails 0
      then (c, err (sql beginning_tx))
      else rolled_back (fill_tx fails item (record c { tx = some (begin_tx c.db) }))

  -- On a database without an open transaction.
  unfoldable pub place_order : (ℕ → Bool) → String → Db → Db × Result OutboxError ℕ
  unfolding place_order_on
  place_order fails item d = let (c, r) = place_order_on fails item (connected d) in (c.db, r)

  -- `fails`: the query, the scan of some row, the iteration.
  unfoldable pub pending_events : (ℕ → Bool) → Db → Result OutboxError (List Event)
  pending_events fails d =
      if fails 0
      then err (sql querying_outbox)
      else if fails 1
      then err (sql scanning_event)
      else if fails 2
      then err (sql iterating_outbox)
      else ok (select_pending d)

  unfoldable pub mark_dispatched : Bool → ℕ → Db → Db × Result OutboxError (Unit {0})
  mark_dispatched fails i d = if fails then (d, err (sql (marking_event i))) else (mark i d, ok tt)

  pub record World : Type 0 where
    pub db : Db
    pub broker : Broker

  -- The loop of `Relay`; `fails` is asked for each event's mark.
  unfoldable pub relay_loop :
      Bool → (ℕ → Bool) → List Event → World → World × Result OutboxError (Unit {0})
  unfolding mark_dispatched
  relay_loop crash fails [] w = (w, ok tt)
  relay_loop crash fails (e ∷ es) w =
      let b = publish e w.broker in
      let (d, reply) = mark_dispatched (fails e.id) e.id w.db in
      let rest = relay_loop crash fails es (record { db = d; broker = b }) in
      if crash
      then (record w { broker = b }, ok tt)
      else elim reply [ err x ↦ (record { db = d; broker = b }, err x) | ok u ↦ rest ]

  unfoldable pub relay :
      Bool → (ℕ → Bool) → (ℕ → Bool) → World → World × Result OutboxError (Unit {0})
  unfolding pending_events relay_loop
  relay crash query_fails fails w = elim (pending_events query_fails w.db) [
    | err x ↦ (w, err x)
    | ok es ↦ relay_loop crash fails es w
  ]
