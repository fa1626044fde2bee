-- ===== src/GrpcAdvanced/Demo.antt =====
-- The demonstrations of main.go, by what their calls return; the texts they print are left out.
use Prim.Native.String.{String}
use go_examples.Base.{
  ℕ, suc, Bool, true, false, List, [], ◌∷◌, Option, none, some, Result, ok, err, leaf, wrap, leb,
  if◌then◌else◌,
}
use go_examples.GrpcAdvanced.{
  RpcError, unauthenticated, deadline_exceeded, nil_error, authed_unary_echo,
  expected_unauthenticated, expected_deadline, opening_stream, closing_send_side, expected_eof,
  sending, receiving, deadline_not_propagated, is_eof,
}

-- `status.FromError(err)` with the code compared
abbrev has_unauthenticated : RpcError → Bool
has_unauthenticated (leaf unauthenticated) = true
has_unauthenticated (leaf _) = false
has_unauthenticated (wrap c e) = has_unauthenticated e

abbrev has_deadline_exceeded : RpcError → Bool
has_deadline_exceeded (leaf deadline_exceeded) = true
has_deadline_exceeded (leaf _) = false
has_deadline_exceeded (wrap c e) = has_deadline_exceeded e

-- The replies to the two connections.
unfoldable pub demo_auth :
    Result RpcError String → Result RpcError String → Result RpcError (Unit {0})
demo_auth (err e) reply = err (wrap authed_unary_echo e)
demo_auth (ok m) (ok m') = err (wrap expected_unauthenticated (leaf nil_error))
demo_auth (ok m) (err e) =
    if has_unauthenticated e then ok tt else err (wrap expected_unauthenticated e)

-- The milliseconds that the call took, and its reply.
unfoldable pub demo_deadline : ℕ × Result RpcError String → Result RpcError (Unit {0})
demo_deadline (elapsed, ok m) = err (wrap expected_deadline (leaf nil_error))
demo_deadline (elapsed, err e) =
    if has_deadline_exceeded e
    then (if leb 5000 elapsed then err (leaf (deadline_not_propagated elapsed)) else ok tt)
    else err (wrap expected_deadline e)

-- The end of demoBidi: CloseSend and the last Recv.
abbrev close_stream : Option RpcError → Result RpcError String → Result RpcError (Unit {0})
close_stream (some e) reply = err (wrap closing_send_side e)
close_stream none (ok m) = err (wrap expected_eof (leaf nil_error))
close_stream none (err e) = if is_eof e then ok tt else err (wrap expected_eof e)

-- The loop of demoBidi: the results of Send and Recv, by their number.
unfoldable pub exchange :
    (ℕ → Option RpcError)
    → (ℕ → Result RpcError String)
    → Option RpcError
    → ℕ
    → List String
    → Result RpcError (Unit {0})
exchange send recv close i [] = close_stream close (recv i)
exchange send recv close i (m ∷ ms) =
    let rest = exchange send recv close (suc i) ms in
    elim (send i) [
      | some e ↦ err (wrap (sending m) e)
      | none ↦ elim (recv i) [ err e ↦ err (wrap (receiving m) e) | ok reply ↦ rest ]
    ]

unfoldable pub demo_bidi :
    Option RpcError
    → (ℕ → Option RpcError)
    → (ℕ → Result RpcError String)
    → Option RpcError
    → Result RpcError (Unit {0})
unfolding exchange
demo_bidi (some e) send recv close = err (wrap opening_stream e)
demo_bidi none send recv close = exchange send recv close 0 ("one" ∷ "two" ∷ "three" ∷ [])
