-- ===== src/Websocket/Demo.antt =====
-- `run` of main.go: two clients connect, each sends a message that both receive, and both leave. What the network and the
-- server answer is an argument; `recv` and `waitForClients` are those of the parent.
use Prim.Native.String.{String}
use go_examples.Base.{List, [], ◌∷◌, Option, none, some, Result, ok, err, Error, leaf, wrap}
use go_examples.Websocket
use go_examples.Websocket.{Selected, recv}

pub data ChatLeaf : Type 0 where
  network nil_error : ChatLeaf
  of_client : Websocket.Leaf → ChatLeaf

pub data ChatContext : Type 0 where
  listening dialing pinging serving shutting_down : ChatContext
  sending closing_client : String → ChatContext
  from_client : Websocket.Context → ChatContext

abbrev pub ChatError : Type 0
ChatError = Error ChatContext ChatLeaf

abbrev pub lift_error : Error Websocket.Context Websocket.Leaf → ChatError
lift_error (leaf l) = leaf (of_client l)
lift_error (wrap c e) = wrap (from_client c) (lift_error e)

abbrev pub lift_result {ℓ} :
    {A : Type ℓ} → Result (Error Websocket.Context Websocket.Leaf) A → Result ChatError A
lift_result (ok a) = ok a
lift_result (err e) = err (lift_error e)

-- The rounds of the broadcast demonstration: whether the write failed, and what each client's select yields.
pub record Round : Type 0 where
  pub sender : String
  pub write_error : Option ChatError
  pub alice_gets : Selected
  pub bob_gets : Selected

-- The calls of `run` that can fail, in their order. `serve` is the error of Serve, none if it is ErrServerClosed.
pub record ChatAnswers : Type 0 where
  pub listen : Option ChatError
  pub alice_dials : Option ChatError
  pub bob_dials : Option ChatError
  pub both_registered : Result (Error Websocket.Context Websocket.Leaf) (Unit {0})
  pub ping : Option ChatError
  pub first : Round
  pub second : Round
  pub alice_closes : Option ChatError
  pub bob_closes : Option ChatError
  pub both_left : Result (Error Websocket.Context Websocket.Leaf) (Unit {0})
  pub shutdown : Option ChatError
  pub serve : Option ChatError

-- What the clients print.
abbrev pub Heard : Type 0
Heard = List (String × String)

abbrev pub continue {ℓ} :
    {A : Type ℓ}
    → Result ChatError A
    → (A → Heard × Result ChatError (Unit {0}))
    → Heard × Result ChatError (Unit {0})
continue (err e) rest = ([], err e)
continue (ok a) rest = rest a

abbrev pub within :
    Option ChatError
    → ChatContext
    → Heard × Result ChatError (Unit {0})
    → Heard × Result ChatError (Unit {0})
within none c rest = rest
within (some e) c rest = ([], err (wrap c e))

abbrev pub hears :
    String → String → Heard × Result ChatError (Unit {0}) → Heard × Result ChatError (Unit {0})
hears name message (heard, r) = ((name, message) ∷ heard, r)

-- A round of the loop over the messages.
unfoldable pub round :
    Round → Heard × Result ChatError (Unit {0}) → Heard × Result ChatError (Unit {0})
unfolding recv
round r rest = within r.write_error (sending r.sender) (
    continue (lift_result (recv "alice" r.alice_gets))
      λ a. hears "alice" a (continue (lift_result (recv "bob" r.bob_gets)) λ b. hears "bob" b rest))

unfoldable pub chat : ChatAnswers → Heard × Result ChatError (Unit {0})
unfolding round
chat w = within w.listen listening (
    within w.alice_dials dialing (
      within w.bob_dials dialing (
        continue (lift_result w.both_registered) λ _. within w.ping pinging (
          round w.first (
            round w.second (
              within w.alice_closes (closing_client "alice") (
                within w.bob_closes (closing_client "bob") (
                  continue (lift_result w.both_left) λ _.
                    within w.shutdown shutting_down (within w.serve serving ([], ok tt))))))))))
