-- ===== src/Websocket/Room/Tests.antt =====
-- A message that goes from one client to two, and the theorem at that run.
use go_examples.Base.{◌≤◌, ◌≡◌, refl, true, List, [], ◌∷◌, Option, none, some, length}
use go_examples.Websocket
use go_examples.Websocket.{accepted, received, wrote, register, snapshot, new_hub}
use go_examples.Websocket.Room.{
  Room, new_room, RoomEvent, at_hub, at_client, frame_read, frame_put, read_fails, message_taken,
  link_step, step, run,
}
use go_examples.Websocket.Room.Links.{contents}
use go_examples.Websocket.Room.Writes.{messages_for, occurrences, writes_of}
use go_examples.Websocket.Room.Delivered.{delivers_in_order}

abbrev chat_events : List RoomEvent
chat_events =
    at_hub (accepted 1)
    ∷ at_hub (accepted 2)
    ∷ at_hub (received 1 "hola")
    ∷ at_hub (wrote 0 true)
    ∷ at_client 2 frame_read
    ∷ at_hub (wrote 0 true)
    ∷ at_client 2 frame_put
    ∷ at_client 2 message_taken
    ∷ at_client 1 read_fails
    ∷ []

abbrev or_else {ℓ} : {A : Type ℓ} → A → Option A → A
or_else a none = a
or_else a (some b) = b

abbrev after_chat : Room
after_chat = or_else new_room (run chat_events new_room)

chat_events-run : run chat_events new_room ≡ some after_chat
unfolding run step link_step Websocket.step register snapshot new_hub
chat_events-run = refl

chat_taken : (after_chat.links 2).taken ≡ "hola" ∷ []
unfolding run step link_step Websocket.step register snapshot new_hub
chat_taken = refl

delivers_in_order_example :
    (contents (after_chat.links 2) ≡ messages_for 2 after_chat.log)
    × (occurrences "hola" (contents (after_chat.links 2))
        ≡ writes_of 2 "hola" after_chat.hub.broadcasts)
    × (length (after_chat.links 2).msgs ≤ 8)
delivers_in_order_example = delivers_in_order chat_events after_chat 2 "hola" chat_events-run
