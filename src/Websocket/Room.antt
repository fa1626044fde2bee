-- ===== src/Websocket/Room.antt =====
-- The hub together with its clients: `connect` of main.go runs a pump on each connection, which reads the frames and
-- puts them into the channel that `recv` takes from. A connection delivers the frames written to it in their
-- order until the pump's Read fails, and then none.
pub mod Links
pub mod Writes
pub mod Delivered
mod Tests
use Prim.Native.String.{String}
use go_examples.Base.{
  ℕ, zero, suc, ◌+◌, Bool, true, false, List, [], ◌∷◌, ◌++◌, Option, none, some, ◌==◌, ltb,
  if◌then◌else◌, length,
}
use go_examples.Websocket
use go_examples.Websocket.{Broadcast, Hub, new_hub, accepted, closed, received, wrote}

-- The frames on the connection, the one the pump has read, the channel, and what `recv` has returned.
pub record Link : Type 0 where
  pub wire : List String
  pub in_pump : Option String
  pub msgs : List String
  pub taken : List String
  pub pump_ended : Bool

-- `log` is no state of the program: the successful writes of the hub, in order.
pub record Room : Type 0 where
  pub hub : Hub
  pub links : ℕ → Link
  pub log : List (ℕ × String)

abbrev pub new_link : Link
new_link = record { wire = []; in_pump = none; msgs = []; taken = []; pump_ended = false }

abbrev pub new_room : Room
new_room = record { hub = new_hub; links = λ c. new_link; log = [] }

pub data PumpEvent : Type 0 where
  frame_read frame_put read_fails message_taken : PumpEvent

pub data RoomEvent : Type 0 where
  at_hub : Websocket.Event → RoomEvent
  at_client : ℕ → PumpEvent → RoomEvent

-- `conn.Read`
abbrev pub read_frame : List String → Option String → Link → Option Link
read_frame (m ∷ ms) none l =
    if l.pump_ended then none else some (record l { wire = ms; in_pump = some m })
read_frame [] h l = none
read_frame (m ∷ ms) (some x) l = none

-- `c.msgs <- string(data)`: the channel has room for 8 messages.
abbrev pub put_frame : Option String → Link → Option Link
put_frame (some m) l =
    if ltb (length l.msgs) 8
    then some (record l { in_pump = none; msgs = l.msgs ++ m ∷ [] })
    else none
put_frame none l = none

abbrev pub end_pump : Option String → Link → Option Link
end_pump none l = if l.pump_ended then none else some (record l { pump_ended = true })
end_pump (some m) l = none

-- `<-c.msgs`
abbrev pub take_message : List String → Link → Option Link
take_message (m ∷ ms) l = some (record l { msgs = ms; taken = l.taken ++ m ∷ [] })
take_message [] l = none

unfoldable pub link_step : PumpEvent → Link → Option Link
link_step frame_read l = read_frame l.wire l.in_pump l
link_step frame_put l = put_frame l.in_pump l
link_step read_fails l = end_pump l.in_pump l
link_step message_taken l = take_message l.msgs l

-- The client and the message of the next write of a broadcast.
abbrev pub write_of : List ℕ → String → Option (ℕ × String)
write_of [] m = none
write_of (c ∷ cs) m = some (c, m)

abbrev pub next_write : ℕ → List Broadcast → Option (ℕ × String)
next_write k [] = none
next_write zero (b ∷ bs) = write_of b.left b.message
next_write (suc k) (b ∷ bs) = next_write k bs

abbrev pub sent_by : Websocket.Event → Hub → Option (ℕ × String)
sent_by (wrote k true) h = next_write k h.broadcasts
sent_by (wrote k false) h = none
sent_by (accepted c) h = none
sent_by (closed c) h = none
sent_by (received c m) h = none

abbrev pub deliver : Option (ℕ × String) → Room → Room
deliver none r = r
deliver (some (c, m)) r = record r {
  links =
      λ d. if d == c then record (r.links d) { wire = (r.links d).wire ++ m ∷ [] } else r.links d;
  log = r.log ++ (c, m) ∷ [];
}

abbrev pub at_hub_step : Option Hub → Option (ℕ × String) → Room → Option Room
at_hub_step none sent r = none
at_hub_step (some h) sent r = some (deliver sent (record r { hub = h }))

abbrev pub at_client_step : ℕ → Option Link → Room → Option Room
at_client_step c none r = none
at_client_step c (some l) r = some (record r { links = λ d. if d == c then l else r.links d })

unfoldable pub step : RoomEvent → Room → Option Room
unfolding Websocket.step link_step
step (at_hub e) r = at_hub_step (Websocket.step e r.hub) (sent_by e r.hub) r
step (at_client c e) r = at_client_step c (link_step e (r.links c)) r

unfoldable pub run : List RoomEvent → Room → Option Room
unfolding step
run [] r = some r
run (e ∷ es) r = elim (step e r) [ none ↦ none | some s ↦ run es s ]
