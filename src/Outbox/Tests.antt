-- ===== src/Outbox/Tests.antt =====
-- The outbox on the tables in memory.
use go_examples.Base.{
  ℕ, Bool, none, ◌==◌, ◌≡◌, refl, true, false, List, [], ◌∷◌, length, All, is_ok, ok, ◌⊎◌,
}
use go_examples.Outbox.Memory.{memory}
use go_examples.Outbox.Publishing.{new_broker, member, publish}
use go_examples.Outbox.{World, connected, place_order_on, place_order, pending_events, relay}
use go_examples.Outbox.Rows.{Distinct}
use go_examples.Outbox.Relay.{publish_all, relay_drains, relay_crash}
use go_examples.Outbox.History.{
  Op, place, relays, run, fresh, Consistent, history-Consistent, history_delivers,
}
use go_examples.Outbox.Placing.{place_order_atomic}
use go_examples.Outbox.Demo
use go_examples.Outbox.Demo.{
  Fails, dual_write_problem, relay_crash_window, dual_write_inconsistent, relay_crash_window_lem,
}

abbrev quiet : Fails
quiet i = false

abbrev one_order : World memory
one_order = record {
  db =
      memory.insert_event "order.placed" (record { order_id = 1; item = "trackball" })
        memory.created;
  broker = new_broker;
}

relay_drains_instance :
    let (w', reply) = relay memory false quiet quiet one_order in
    (reply ≡ ok tt)
    × (memory.select_pending w'.db ≡ [])
    × (memory.orders w'.db ≡ [])
    × (w'.broker ≡ publish_all (memory.select_pending one_order.db) new_broker)
relay_drains_instance = relay_drains memory quiet quiet one_order (λ i. refl) (λ i. refl)

relay_crash_example :
    let (w', reply) = relay memory true quiet quiet one_order in
    (reply ≡ ok tt)
    × (w'.db ≡ one_order.db)
    × (w'.broker ≡ publish_all (memory.select_pending one_order.db) new_broker)
relay_crash_example = relay_crash memory quiet quiet one_order (λ i. refl)

abbrev history : List Op
history =
    place quiet "trackball"
    ∷ relays true quiet quiet
    ∷ place (λ i. true) "lost"
    ∷ relays false quiet (λ i. true)
    ∷ []

history-Consistent_example : Consistent memory (run memory history (fresh memory))
history-Consistent_example = history-Consistent memory history

history_delivers_example :
    let w = (relay memory false quiet quiet (run memory history (fresh memory))).0 in
    All (λ r. member r.event.id w.broker.seen ≡ true) (memory.outbox w.db)
    × Distinct w.broker.seen
    × (length w.broker.delivered ≡ length w.broker.seen)
    × (memory.select_pending w.db ≡ [])
history_delivers_example = history_delivers memory history quiet quiet (λ i. refl) (λ i. refl)

-- The second INSERT fails.
place_order_atomic_example :
    let fails : ℕ → Bool = λ i. i == 3 in
    let (c, reply) = place_order_on memory fails "trackball" (connected memory memory.created) in
    (c.tx ≡ none)
    × (((is_ok reply ≡ false) × (c.db ≡ memory.created))
        ⊎ ((reply ≡ ok 1)
            × (memory.orders c.db ≡ record { id = 1; item = "trackball" } ∷ [])
            × (memory.outbox c.db
                ≡ record {
                  event = record {
                    id = 1;
                    topic = "order.placed";
                    payload = record { order_id = 1; item = "trackball" };
                  };
                  dispatched = false;
                }
                  ∷ [])))
    × (((i : ℕ) → fails i ≡ false) → is_ok reply ≡ true)
place_order_atomic_example = place_order_atomic memory (λ i. i == 3) "trackball" memory.created

dual_write_inconsistent_instance :
    ¬ (Consistent memory (dual_write_problem memory quiet (fresh memory)).0)
unfolding run
dual_write_inconsistent_instance =
    (dual_write_inconsistent memory quiet (fresh memory) refl (history-Consistent memory [])).3

relay_crash_window_lem_instance :
    let (w', reply) =
      relay_crash_window memory quiet quiet quiet quiet quiet quiet (fresh memory) in
    (reply ≡ ok tt)
    × (memory.select_pending w'.db ≡ [])
    × (length w'.broker.delivered ≡ 1)
    × (w'.broker.dupes ≡ 1)
unfolding run
relay_crash_window_lem_instance =
    relay_crash_window_lem memory quiet quiet quiet quiet quiet quiet (fresh memory) (λ i. refl)
      (λ i. refl) (λ i. refl) (λ i. refl) (λ i. refl) (history-Consistent memory []) refl

-- The order of the dual write is in the database, and the events of the other two were delivered, one of them twice.
whole_run :
    let (w, reply) = Demo.run memory false (λ i. quiet) in
    (reply ≡ ok tt)
    × (length (memory.orders w.db) ≡ 3)
    × (length w.broker.delivered ≡ 2)
    × (w.broker.dupes ≡ 1)
unfolding Demo.run Demo.dual_write_problem Demo.outbox_write Demo.relay_happy_path
    Demo.relay_crash_window place_order place_order_on pending_events relay publish
whole_run = (refl, refl, refl, refl)
