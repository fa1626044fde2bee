-- ===== src/Websocket/Tests.antt =====
-- Two clients; one leaves while it is written to.
use go_examples.Base.{◌≡◌, refl, true, false, List, [], ◌∷◌, none, some, ok, err, leaf}
use go_examples.Websocket.{
  Hub, new_hub, client_count, register, unregister, snapshot, Event, accepted, closed, received,
  wrote, step, run, message, recv, wait_for_clients, channel_closed, connection_closed,
}
use Prim.Native.String.{String}
use go_examples.Websocket.Demo.{ChatAnswers, Round, round, chat, of_client}
use go_examples.Websocket.Fanout.{IsFanout, run-IsFanout}
use go_examples.Websocket.Follows.{Answers, later, headers}

abbrev events : List Event
events = accepted 1 ∷ accepted 2 ∷ received 1 "hola" ∷ wrote 0 true ∷ closed 2 ∷ wrote 0 false ∷ []

abbrev final : Hub
final = record {
  clients = 1 ∷ [];
  broadcasts =
      record {
        sender = 1;
        message = "hola";
        targets = 2 ∷ 1 ∷ [];
        left = [];
        written = (2, true) ∷ (1, false) ∷ [];
      }
      ∷ [];
}

run-events : run events new_hub ≡ some final
unfolding run step register unregister snapshot new_hub
run-events = refl

run-IsFanout_example : IsFanout final × Answers (later events []) (headers final.broadcasts)
run-IsFanout_example = run-IsFanout events final run-events

one_left : client_count final ≡ 1
unfolding client_count
one_left = refl

-- A handler does not leave in the middle of its broadcast.
busy : run (accepted 1 ∷ received 1 "hola" ∷ closed 1 ∷ []) new_hub ≡ none
unfolding run step register unregister snapshot new_hub
busy = refl

received_message : recv "alice" (message "hola") ≡ ok "hola"
unfolding recv
received_message = refl

waited : wait_for_clients 2 (λ i. i) (λ i. false) 5 0 ≡ some (ok tt)
unfolding wait_for_clients
waited = refl

abbrev good_round : String → String → Round
good_round sender m = record {
  sender = sender;
  write_error = none;
  alice_gets = message m;
  bob_gets = message m;
}

abbrev good_answers : ChatAnswers
good_answers = record {
  listen = none;
  alice_dials = none;
  bob_dials = none;
  both_registered = ok tt;
  ping = none;
  first = good_round "alice" "alice: hola";
  second = good_round "bob" "bob: qué tal";
  alice_closes = none;
  bob_closes = none;
  both_left = ok tt;
  shutdown = none;
  serve = none;
}

chat-run : chat good_answers ≡ (
  ("alice", "alice: hola")
      ∷ ("bob", "alice: hola")
      ∷ ("alice", "bob: qué tal")
      ∷ ("bob", "bob: qué tal")
      ∷ [],
  ok tt,
)
unfolding chat round recv
chat-run = refl

lost-run :
    chat
      (record good_answers { second = record (good_round "bob" "x") { bob_gets = channel_closed } })
    ≡ (
      ("alice", "alice: hola") ∷ ("bob", "alice: hola") ∷ ("alice", "x") ∷ [],
      err (leaf (of_client connection_closed)),
    )
unfolding chat round recv
lost-run = refl
