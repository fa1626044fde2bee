-- ===== src/GrpcAdvanced/Tests.antt =====
-- Calls of the two connections of main.go, and its demonstrations against the handlers.
use Prim.Native.String.{String}
use go_examples.Base.{
  ℕ, zero, suc, ◌≡◌, refl, inl, [], ◌∷◌, ◌++◌, map, none, some, Result, ok, err, leaf,
}
use go_examples.GrpcAdvanced.{
  RpcError, unauthenticated, deadline_exceeded, eof, Metadata, auth_header, authed, anonymous,
  invoke, auth_interceptor, token_interceptor, check_auth, unary_echo, slow_echo, Turn, bidi_echo,
}
use go_examples.GrpcAdvanced.Auth.{invoke_served}
use go_examples.GrpcAdvanced.Streams.{echoed, bidi_echo_lem}
use go_examples.GrpcAdvanced.Demo.{demo_auth, demo_deadline, demo_bidi}

abbrev stale : Metadata
stale = (auth_header, "Bearer old") ∷ []

invoke_served_instance :
    (invoke anonymous stale (unary_echo "hello") 0 ≡ (0, err (leaf unauthenticated)))
    × (invoke authed stale (unary_echo "hello") 0 ≡ (0, err (leaf unauthenticated)))
invoke_served_instance = invoke_served (unary_echo "hello") 0 stale

abbrev end_of_stream : Turn
end_of_stream = record { received = err (leaf eof); send_error = none }

bidi_echo_lem_instance :
    bidi_echo (map echoed ("one" ∷ "two" ∷ []) ++ end_of_stream ∷ [])
    ≡ ("echo: one" ∷ "echo: two" ∷ [], some (ok tt))
bidi_echo_lem_instance =
    bidi_echo_lem ("one" ∷ "two" ∷ []) end_of_stream [] (ok tt) (inl (leaf eof, refl, refl))

auth_demo :
    demo_auth
      (invoke authed [] (unary_echo "hello") 0).1
      (invoke anonymous [] (unary_echo "hello") 0).1
    ≡ ok tt
unfolding demo_auth invoke auth_interceptor token_interceptor check_auth
auth_demo = refl

deadline_demo : demo_deadline (slow_echo (some (100, deadline_exceeded)) "too slow") ≡ ok tt
unfolding demo_deadline slow_echo
deadline_demo = refl

abbrev responses : ℕ → Result RpcError String
responses zero = ok "echo: one"
responses (suc zero) = ok "echo: two"
responses (suc (suc zero)) = ok "echo: three"
responses (suc (suc (suc n))) = err (leaf eof)

bidi_demo : demo_bidi none (λ i. none) responses none ≡ ok tt
unfolding demo_bidi
bidi_demo = refl
