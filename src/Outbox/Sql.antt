-- ===== src/Outbox/Sql.antt =====
-- The two tables of outbox.go, and the SQL engine's effect on them: an interface, since the engine
-- is not part of the repository. Rows are listed by their ids, which AUTOINCREMENT makes grow.
use Prim.Native.String.{String}
use go_examples.Base.{
  ℕ, ◌<◌, ◌≡◌, Bool, true, false, List, [], ◌∷◌, ◌++◌, map, All, ◌==◌, if◌then◌else◌,
}

-- The text `{"order_id": %d, "item": %q}`, by its two values.
pub record Payload : Type 0 where
  pub order_id : ℕ
  pub item : String

pub record Event : Type 0 where
  pub id : ℕ
  pub topic : String
  pub payload : Payload

-- A row of `outbox`.
pub record Row : Type 0 where
  pub event : Event
  pub open event use *
  pub dispatched : Bool

pub record Order : Type 0 where
  pub id : ℕ
  pub item : String

-- `WHERE dispatched = 0`
abbrev pub pending : List Row → List Event
pending [] = []
pending (r ∷ rs) = if r.dispatched then pending rs else r.event ∷ pending rs

-- `SET dispatched = 1 WHERE id = ?`
abbrev pub mark_row : ℕ → Row → Row
mark_row i r = if r.event.id == i then record r { dispatched = true } else r

pub record Database : Type 1 where
  pub Db : Type 0
  pub orders : Db → List Order
  pub outbox : Db → List Row
  pub next_order : Db → ℕ
  pub next_event : Db → ℕ
  pub created : Db  -- after Init
  pub insert_order : String → Db → Db × ℕ
  pub insert_event : String → Payload → Db → Db
  pub select_pending : Db → List Event
  pub mark : ℕ → Db → Db
  -- A transaction: what it sees and writes, and COMMIT.
  pub Tx : Type 0
  pub view : Tx → Db
  pub begin_tx : Db → Tx
  pub tx_insert_order : String → Tx → Tx × ℕ
  pub tx_insert_event : String → Payload → Tx → Tx
  pub commit : Tx → Db
  pub view-begin_tx : (d : Db) → view (begin_tx d) ≡ d
  pub view-tx_insert_order :
      (item : String) (t : Tx) → view (tx_insert_order item t).0 ≡ (insert_order item (view t)).0
  pub tx_insert_order-reply :
      (item : String) (t : Tx) → (tx_insert_order item t).1 ≡ (insert_order item (view t)).1
  pub view-tx_insert_event :
      (s : String) (p : Payload) (t : Tx) → view (tx_insert_event s p t) ≡ insert_event s p (view t)
  -- There is one connection, so nothing is written beside the transaction.
  pub commit-view : (t : Tx) → commit t ≡ view t
  pub orders-created : orders created ≡ []
  pub outbox-created : outbox created ≡ []
  -- Generated keys are new.
  pub next_event_fresh : (d : Db) → All (λ r. r.event.id < next_event d) (outbox d)
  pub last_insert_id : (item : String) (d : Db) → (insert_order item d).1 ≡ next_order d
  pub orders-insert_order :
      (item : String) (d : Db)
      → orders (insert_order item d).0 ≡ orders d ++ record { id = next_order d; item = item } ∷ []
  pub outbox-insert_order : (item : String) (d : Db) → outbox (insert_order item d).0 ≡ outbox d
  pub next_event-insert_order :
      (item : String) (d : Db) → next_event (insert_order item d).0 ≡ next_event d
  pub orders-insert_event :
      (t : String) (p : Payload) (d : Db) → orders (insert_event t p d) ≡ orders d
  pub outbox-insert_event :
      (t : String) (p : Payload) (d : Db)
      → outbox (insert_event t p d)
        ≡ outbox d
          ++ record {
            event = record { id = next_event d; topic = t; payload = p };
            dispatched = false;
          }
            ∷ []
  pub select_pending_lem : (d : Db) → select_pending d ≡ pending (outbox d)
  pub orders-mark : (i : ℕ) (d : Db) → orders (mark i d) ≡ orders d
  pub outbox-mark : (i : ℕ) (d : Db) → outbox (mark i d) ≡ map (mark_row i) (outbox d)
