-- ===== src/Websocket/Room/Delivered.antt =====
-- Every message that the hub wrote reaches its client, in the order of the writes.
use Prim.Native.String.{String}
use mathlib.Core.Path.{subst}
use mathlib.Core.List.{append_assoc}
use go_examples.Base.{
  ℕ, ◌+◌, ◌≤◌, ◌≡◌, refl, ap, ◌∙◌, List, [], ◌∷◌, ◌++◌, Option, none, some, ◌==◌, ==_iff, length,
  arith, Bool-cases, inl, inr,
}
use go_examples.Websocket
use go_examples.Websocket.{
  Broadcast, Hub, new_hub, elem, accepted, closed, received, wrote, write_to, write_next, write_at,
  register, unregister, snapshot, is_reading,
}
use go_examples.Websocket.Room.{
  Link, Room, new_room, RoomEvent, at_hub, at_client, link_step, sent_by, deliver, at_hub_step,
  at_client_step, step, run,
}
use go_examples.Websocket.Room.Links.{contents, KeepsIn, link_step-KeepsIn}
use go_examples.Websocket.Room.Writes.{
  messages_for, occurrences, writes_of, messages_for-append, occurrences-append, added, HubWrote,
  hub_step-HubWrote,
}

-- What each link holds was written to it, in order, and the writes are those of the broadcasts.
record IsDelivering (r : Room) : Type 0 where
  held : (c : ℕ) → contents (r.links c) ≡ messages_for c r.log
  fits : (c : ℕ) → length (r.links c).msgs ≤ 8
  logged :
      (c : ℕ) (m : String) → occurrences m (messages_for c r.log) ≡ writes_of c m r.hub.broadcasts

abbrev Delivering : Option Room → Type 0
Delivering none = Unit
Delivering (some r) = IsDelivering r

contents_written :
    (l : Link) (m : String) → contents (record l { wire = l.wire ++ m ∷ [] }) ≡ contents l ++ m ∷ []
contents_written l m = simp append_assoc

deliver-IsDelivering :
    (sent : Option (ℕ × String)) (h : Hub) (r : Room)
    → IsDelivering r
    → ((c : ℕ) (m : String)
        → writes_of c m h.broadcasts ≡ writes_of c m r.hub.broadcasts + added c m sent)
    → IsDelivering (deliver sent (record r { hub = h }))
deliver-IsDelivering none h r d w = record {
  held = d.held;
  fits = d.fits;
  logged = λ c m. omega (arith, d.logged c m, w c m);
}
deliver-IsDelivering (some (e, x)) h r d w = record {
  held = λ c. elim (Bool-cases (c == e)) [
    | inl t ↦ ground (
      arith,
      t,
      ==_iff c e,
      ==_iff e c,
      d.held c,
      messages_for-append c e x r.log,
      contents_written (r.links c) x,
    )
    | inr t ↦ ground (arith, t, ==_iff c e, ==_iff e c, d.held c, messages_for-append c e x r.log)
  ];
  fits = λ c. ground (arith, d.fits c);
  logged = λ c m. ground (
    arith,
    d.logged c m,
    w c m,
    messages_for-append c e x r.log,
    occurrences-append m (messages_for c r.log) x,
  );
}

hub-Delivering :
    (sent : Option (ℕ × String)) (o : Option Hub) (r : Room)
    → IsDelivering r
    → ((c : ℕ) (m : String) → HubWrote c m r.hub sent o)
    → Delivering (at_hub_step o sent r)
hub-Delivering sent none r d w = tt
hub-Delivering sent (some h) r d w = deliver-IsDelivering sent h r d w

client-Delivering :
    (c : ℕ) (o : Option Link) (r : Room)
    → IsDelivering r
    → KeepsIn (r.links c) o
    → Delivering (at_client_step c o r)
client-Delivering c none r d k = tt
client-Delivering c (some l) r d k = record {
  held = λ e. elim (Bool-cases (e == c)) [
    | inl t ↦ ground (arith, t, ==_iff e c, d.held c, k.same)
    | inr t ↦ ground (arith, t, d.held e)
  ];
  fits = λ e. ground (arith, d.fits e, k.room (d.fits c));
  logged = d.logged;
}

step-Delivering : (e : RoomEvent) (r : Room) → IsDelivering r → Delivering (step e r)
unfolding step
step-Delivering (at_hub e) r d =
    hub-Delivering (sent_by e r.hub) (Websocket.step e r.hub) r d (hub_step-HubWrote e r.hub)
step-Delivering (at_client c e) r d =
    client-Delivering c (link_step e (r.links c)) r d (link_step-KeepsIn e (r.links c))

onward :
    (o : Option Room) (es : List RoomEvent)
    → Delivering o
    → ((r : Room) → IsDelivering r → Delivering (run es r))
    → Delivering (elim o [ none ↦ none | some r ↦ run es r ])
onward none es d k = tt
onward (some r) es d k = k r d

run-Delivering : (es : List RoomEvent) (r : Room) → IsDelivering r → Delivering (run es r)
unfolding run
run-Delivering [] r d = d
run-Delivering (e ∷ es) r d = onward (step e r) es (step-Delivering e r d) (run-Delivering es)

new_room-IsDelivering : IsDelivering new_room
unfolding new_hub
new_room-IsDelivering = record { held = λ c. refl; fits = λ c. omega arith; logged = λ c m. refl }

-- However the handlers of the hub, the pumps and the receivers interleave: what a client has received, what
-- waits in its channel, with its pump and on its connection are, in this order, the messages that the hub
-- wrote to it, in the order of the writes; each of them as often as the broadcasts with that text have
-- written to the client; and the channel has at most 8.
pub delivers_in_order :
    (es : List RoomEvent) (r : Room) (c : ℕ) (m : String)
    → run es new_room ≡ some r
    → (contents (r.links c) ≡ messages_for c r.log)
      × (occurrences m (contents (r.links c)) ≡ writes_of c m r.hub.broadcasts)
      × (length (r.links c).msgs ≤ 8)
delivers_in_order es r c m h =
    let d : IsDelivering r =
      subst Delivering h (run-Delivering es new_room new_room-IsDelivering) in
    (d.held c, ap (occurrences m) (d.held c) ∙ d.logged c m, d.fits c)
