-- ===== src/Websocket.antt =====
-- examples/websocket: hub.go, and what main.go does with it. The handlers of the connections are
-- interleaved; a connection is a number. An event is the register, the read with the snapshot of the
-- broadcast, one write, or the unregister of some handler. A handler reads its next message only
-- when its broadcast is over.
pub mod Follows
pub mod Fanout
pub mod Room
pub mod Demo
mod Tests
use Prim.Native.String.{String}
use go_examples.Base.{
  ℕ, zero, suc, ◌+◌, Bool, true, false, not, List, [], ◌∷◌, ◌++◌, Option, none, some, Result, ok,
  err, Error, leaf, wrap, ◌==◌, if◌then◌else◌, length,
}

-- A call of `broadcast`: the snapshot of the clients, those still to be written to, and the writes
-- made, with their success.
pub record Broadcast : Type 0 where
  pub sender : ℕ
  pub message : String
  pub targets : List ℕ
  pub left : List ℕ
  pub written : List (ℕ × Bool)

pub record Hub : Type 0 where
  pub clients : List ℕ
  pub broadcasts : List Broadcast

unfoldable pub new_hub : Hub
new_hub = record { clients = []; broadcasts = [] }

unfoldable pub client_count : Hub → ℕ
client_count h = length h.clients

abbrev pub elem : ℕ → List ℕ → Bool
elem c [] = false
elem c (d ∷ ds) = if c == d then true else elem c ds

-- `delete(h.clients, conn)`
abbrev pub delete : ℕ → List ℕ → List ℕ
delete c [] = []
delete c (d ∷ ds) = if c == d then delete c ds else d ∷ delete c ds

-- `h.clients[conn] = true`
unfoldable pub register : ℕ → Hub → Hub
register c h = if elem c h.clients then h else record h { clients = c ∷ h.clients }

unfoldable pub unregister : ℕ → Hub → Hub
unregister c h = record h { clients = delete c h.clients }

-- The first part of `broadcast`, under the mutex.
unfoldable pub snapshot : ℕ → String → Hub → Hub
snapshot c message h = record h {
  broadcasts =
      record { sender = c; message = message; targets = h.clients; left = h.clients; written = [] }
      ∷ h.broadcasts;
}

-- The next round of the loop of `broadcast`: a failed write is dropped.
abbrev pub write_to : Bool → List ℕ → Broadcast → Option Broadcast
write_to success [] b = none
write_to success (c ∷ cs) b =
    some (record b { left = cs; written = b.written ++ (c, success) ∷ [] })

abbrev pub write_next : Bool → Broadcast → Option Broadcast
write_next success b = write_to success b.left b

abbrev pub write_at : ℕ → Bool → List Broadcast → Option (List Broadcast)
write_at k success [] = none
write_at zero success (b ∷ bs) = elim (write_next success b) [
  | none ↦ none
  | some b' ↦ some (b' ∷ bs)
]
write_at (suc k) success (b ∷ bs) = elim (write_at k success bs) [
  | none ↦ none
  | some bs' ↦ some (b ∷ bs')
]

abbrev pub is_over : List ℕ → Bool
is_over [] = true
is_over (c ∷ cs) = false

-- The handler of `c` is in its broadcast.
abbrev pub is_sending : ℕ → List Broadcast → Bool
is_sending c [] = false
is_sending c (b ∷ bs) =
    if c == b.sender then (if is_over b.left then is_sending c bs else true) else is_sending c bs

-- The handler of `c` waits in Read.
abbrev pub is_reading : ℕ → Hub → Bool
is_reading c h = if elem c h.clients then not (is_sending c h.broadcasts) else false

pub data Event : Type 0 where
  accepted closed : ℕ → Event
  received : ℕ → String → Event
  wrote : ℕ → Bool → Event

-- `ServeHTTP`; `accepted` brings a new connection.
unfoldable pub step : Event → Hub → Option Hub
unfolding register unregister snapshot
step (accepted c) h = if elem c h.clients then none else some (register c h)
step (received c message) h = if is_reading c h then some (snapshot c message h) else none
step (closed c) h = if is_reading c h then some (unregister c h) else none
step (wrote k success) h = elim (write_at k success h.broadcasts) [
  | none ↦ none
  | some bs ↦ some (record h { broadcasts = bs })
]

unfoldable pub run : List Event → Hub → Option Hub
unfolding step
run [] h = some h
run (e ∷ es) h = elim (step e h) [ none ↦ none | some h' ↦ run es h' ]

pub data Leaf : Type 0 where
  context_done connection_closed : Leaf

pub data Context : Type 0 where
  waiting_for_broadcast : String → Context
  waiting_for_clients : ℕ → Context

-- `client.recv`: what the select yields, a message, a closed channel, or the end of the context.
pub data Selected : Type 0 where
  message : String → Selected
  channel_closed done : Selected

unfoldable pub recv : String → Selected → Result (Error Context Leaf) String
recv name (message m) = ok m
recv name channel_closed = err (leaf connection_closed)
recv name done = err (wrap (waiting_for_broadcast name) (leaf context_done))

-- `waitForClients`: the counts that its rounds see, and whether the context is done after each. `none` is
-- out of fuel.
unfoldable pub wait_for_clients :
    ℕ → (ℕ → ℕ) → (ℕ → Bool) → ℕ → ℕ → Option (Result (Error Context Leaf) (Unit {0}))
wait_for_clients n counts ended zero i = none
wait_for_clients n counts ended (suc fuel) i =
    let rest = wait_for_clients n counts ended fuel (suc i) in
    if counts i == n
    then some (ok tt)
    else if ended i
    then some (err (wrap (waiting_for_clients n) (leaf context_done)))
    else rest
