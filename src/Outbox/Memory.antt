-- ===== src/Outbox/Memory.antt =====
-- The two tables in memory: an SQL engine that meets the interface of Outbox/Sql.antt.
use Prim.Native.String.{String}
use go_examples.Base.{ℕ, suc, ◌<◌, ◌≡◌, refl, false, List, [], ◌∷◌, ◌++◌, map, arith, All}
use go_examples.Outbox.Sql.{Database, Payload, Row, Order, pending, mark_row}

-- The row ids are below the next one.
pub record Tables : Type 0 where
  pub order_rows : List Order
  pub event_rows : List Row
  pub order_key : ℕ
  pub event_key : ℕ
  pub keys_fresh : All (λ r. r.event.id < event_key) event_rows

pub keys-append :
    (n : ℕ) (rs : List Row) (r : Row)
    → r.event.id ≡ n
    → All (λ x. x.event.id < n) rs
    → All (λ x. x.event.id < suc n) (rs ++ r ∷ [])
keys-append n [] r e h = (omega arith, tt)
keys-append n (x ∷ rs) r e h = (omega arith, keys-append n rs r e h.1)

pub keys-mark :
    (n i : ℕ) (rs : List Row)
    → All (λ x. x.event.id < n) rs
    → All (λ x. x.event.id < n) (map (mark_row i) rs)
keys-mark n i [] h = tt
keys-mark n i (r ∷ rs) h = (ground (arith, h.0), keys-mark n i rs h.1)

abbrev pub add_order : String → Tables → Tables × ℕ
add_order = λ item d. (
  record d {
    order_rows = d.order_rows ++ record { id = d.order_key; item = item } ∷ [];
    order_key = suc d.order_key;
  },
  d.order_key,
)

abbrev pub add_event : String → Payload → Tables → Tables
add_event = λ t p d.
    let r : Row = record {
      event = record { id = d.event_key; topic = t; payload = p };
      dispatched = false;
    } in
    record {
      order_rows = d.order_rows;
      event_rows = d.event_rows ++ r ∷ [];
      order_key = d.order_key;
      event_key = suc d.event_key;
      keys_fresh = keys-append d.event_key d.event_rows r refl d.keys_fresh;
    }

abbrev pub memory : Database
memory = record {
  Db = Tables;
  orders = λ d. d.order_rows;
  outbox = λ d. d.event_rows;
  next_order = λ d. d.order_key;
  next_event = λ d. d.event_key;
  created = record {
    order_rows = [];
    event_rows = [];
    order_key = 1;
    event_key = 1;
    keys_fresh = tt;
  };
  insert_order = add_order;
  insert_event = add_event;
  select_pending = λ d. pending d.event_rows;
  mark = λ i d. record {
    order_rows = d.order_rows;
    event_rows = map (mark_row i) d.event_rows;
    order_key = d.order_key;
    event_key = d.event_key;
    keys_fresh = keys-mark d.event_key i d.event_rows d.keys_fresh;
  };
  Tx = Tables;
  view = λ t. t;
  begin_tx = λ d. d;
  tx_insert_order = add_order;
  tx_insert_event = add_event;
  commit = λ t. t;
  view-begin_tx = λ d. refl;
  view-tx_insert_order = λ item t. refl;
  tx_insert_order-reply = λ item t. refl;
  view-tx_insert_event = λ s p t. refl;
  commit-view = λ t. refl;
  orders-created = refl;
  outbox-created = refl;
  next_event_fresh = λ d. d.keys_fresh;
  last_insert_id = λ item d. refl;
  orders-insert_order = λ item d. refl;
  outbox-insert_order = λ item d. refl;
  next_event-insert_order = λ item d. refl;
  orders-insert_event = λ t p d. refl;
  outbox-insert_event = λ t p d. refl;
  select_pending_lem = λ d. refl;
  orders-mark = λ i d. refl;
  outbox-mark = λ i d. refl;
}
