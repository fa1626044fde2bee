-- ===== src/Grpc.antt =====
-- examples/grpc/main.go: the Greeter service and its client. gRPC is not part of the repository: whether a
-- Send or a call fails is an argument.
pub mod Countdown
mod Tests
use Prim.Native.String.{String, ◌++◌ as ◌<>◌}
use text.Mathlib.Text.{◌==◌ as str_eq}
use go_examples.Base.{
  ℕ, zero, suc, Bool, true, false, List, [], ◌∷◌, Option, none, some, Result, ok, err, Error, leaf,
  wrap, if◌then◌else◌,
}

-- An int32.
pub data ℤ : Type 0 where
  pos negsuc : ℕ → ℤ  -- n, and -(n + 1)

pub data Leaf : Type 0 where
  invalid_argument transport : Leaf
  nil_error : Leaf  -- %w applied to a nil error

pub data Context : Type 0 where
  listening creating_client greet_failed expected_invalid_argument countdown_failed serving :
      Context

abbrev pub RpcError : Type 0
RpcError = Error Context Leaf

unfoldable pub greet : String → Result RpcError String
greet name = if str_eq name "" then err (leaf invalid_argument) else ok ("Hello, " <> (name <> "!"))

-- The loop of `Countdown` from a value that is not negative: the values that are sent, and the error. `fails` is
-- asked for each Send, by its number.
unfoldable pub count_from : (ℕ → Option RpcError) → ℕ → ℕ → List ℕ × Option RpcError
count_from fails i zero = elim (fails i) [ none ↦ (zero ∷ [], none) | some e ↦ ([], some e) ]
count_from fails i (suc v) =
    let (sent, r) = count_from fails (suc i) v in
    elim (fails i) [ none ↦ (suc v ∷ sent, r) | some e ↦ ([], some e) ]

unfoldable pub countdown : (ℕ → Option RpcError) → ℤ → List ℕ × Option RpcError
unfolding count_from
countdown fails (pos n) = count_from fails 0 n
countdown fails (negsuc n) = ([], none)

-- The client's loop: Recv gives the values sent and then an error, which ends the loop.
abbrev pub recv_all : List ℕ × Option RpcError → List ℕ
recv_all (values, e) = values

abbrev pub has_invalid_argument : RpcError → Bool
has_invalid_argument (leaf invalid_argument) = true
has_invalid_argument (leaf _) = false
has_invalid_argument (wrap c e) = has_invalid_argument e

-- What `run` prints: the greeting and the values of the countdown.
pub record Printed : Type 0 where
  pub greeting : String
  pub values : List ℕ

-- The calls that can fail besides the service's own errors.
pub record Faults : Type 0 where
  pub listen : Option RpcError
  pub client : Option RpcError
  pub first_call : Option RpcError
  pub second_call : Option RpcError
  pub stream : Option RpcError
  pub serve_fault : Option RpcError
  pub send : ℕ → Option RpcError

-- A unary call over the connection.
abbrev pub unary : Option RpcError → Result RpcError String → Result RpcError String
unary none r = r
unary (some e) r = err e

abbrev pub unless_failed :
    Option RpcError → Context → Result RpcError Printed → Result RpcError Printed
unless_failed none c rest = rest
unless_failed (some e) c rest = err (wrap c e)

abbrev pub greeted :
    Result RpcError String → (String → Result RpcError Printed) → Result RpcError Printed
greeted (err e) rest = err (wrap greet_failed e)
greeted (ok m) rest = rest m

abbrev pub expect_refusal :
    Result RpcError String → Result RpcError Printed → Result RpcError Printed
expect_refusal (ok m) rest = err (wrap expected_invalid_argument (leaf nil_error))
expect_refusal (err e) rest =
    if has_invalid_argument e then rest else err (wrap expected_invalid_argument e)

unfoldable pub run : Faults → Result RpcError Printed
unfolding greet countdown
run f = unless_failed f.listen listening (
    unless_failed f.client creating_client (
      greeted (unary f.first_call (greet "Ada")) λ m.
        expect_refusal (unary f.second_call (greet "")) (
          unless_failed f.stream countdown_failed (
            unless_failed f.serve_fault serving
              (ok (record { greeting = m; values = recv_all (countdown f.send (pos 3)) }))))))
