-- ===== src/Grpc/Tests.antt =====
-- The client and the countdown on single runs, and the theorem at a concrete countdown.
use go_examples.Base.{
  if◌then◌else◌, ℕ, ◌<◌, ◌==◌, ◌≡◌, refl, [], ◌∷◌, Option, none, some, ok, err, leaf, wrap, arith,
}
use go_examples.Grpc.{
  pos, RpcError, transport, Faults, run, greet, countdown, count_from, expected_invalid_argument,
}
use go_examples.Grpc.Countdown.{countdown_stops}

-- The third Send fails.
abbrev broken : ℕ → Option RpcError
broken i = if i == 2 then some (leaf transport) else none

abbrev no_faults : Faults
no_faults = record {
  listen = none;
  client = none;
  first_call = none;
  second_call = none;
  stream = none;
  serve_fault = none;
  send = λ i. none;
}

good-run : run no_faults ≡ ok (record { greeting = "Hello, Ada!"; values = 3 ∷ 2 ∷ 1 ∷ 0 ∷ [] })
unfolding run greet countdown count_from
good-run = refl

-- The client ends the loop at any error of Recv and prints the values it has.
broken-run :
    run (record no_faults { send = broken })
    ≡ ok (record { greeting = "Hello, Ada!"; values = 3 ∷ 2 ∷ [] })
unfolding run greet countdown count_from
broken-run = refl

lost-run :
    run (record no_faults { second_call = some (leaf transport) })
    ≡ err (wrap expected_invalid_argument (leaf transport))
unfolding run greet
lost-run = refl

unbroken : (j : ℕ) → j < 2 → broken j ≡ none
unbroken j l = ground (arith, l)

countdown_stops_instance : countdown broken (pos 3) ≡ (3 ∷ 2 ∷ [], some (leaf transport))
countdown_stops_instance = countdown_stops broken 3 2 (leaf transport) (omega arith) unbroken refl
