-- ===== src/GrpcAdvanced/Streams.antt =====
-- The echo stream and the deadline, seen from the handlers.
use Prim.Native.String.{String, ◌++◌ as ◌<>◌}
use go_examples.Base.{
  ◌≡◌, ◌⊎◌, inl, inr, ap, List, [], ◌∷◌, ◌++◌, map, none, some, Result, ok, err, arith,
  if◌then◌else◌,
}
use go_examples.GrpcAdvanced.{RpcError, Turn, is_eof, bidi_echo}

abbrev pub echoed : String → Turn
echoed m = record { received = ok m; send_error = none }

-- The turn ends the handler, with this result.
abbrev pub Ends : Turn → Result RpcError (Unit {0}) → Type 0
Ends t r =
    ((e : RpcError) × (t.received ≡ err e) × (r ≡ (if is_eof e then ok tt else err e)))
    ⊎ ((m : String) × (e : RpcError) × (t.received ≡ ok m) × (t.send_error ≡ some e) × (r ≡ err e))

-- The handler echoes every message received before the turn that ends it, in order, and returns
-- nil when that turn is the end of the stream, and the error of its Recv or Send otherwise.
pub bidi_echo_lem :
    (ms : List String) (t : Turn) (ts : List Turn) (r : Result RpcError (Unit {0}))
    → Ends t r
    → bidi_echo (map echoed ms ++ t ∷ ts) ≡ (map (λ m. "echo: " <> m) ms, some r)
unfolding bidi_echo
bidi_echo_lem [] t ts r (inl (e, h, k)) = ground (arith, h, k)
bidi_echo_lem [] t ts r (inr (m, e, h, k, l)) = ground (arith, h, k, l)
bidi_echo_lem (m ∷ ms) t ts r h = ap (λ x. (("echo: " <> m) ∷ x.0, x.1)) (bidi_echo_lem ms t ts r h)
