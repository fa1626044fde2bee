-- ===== src/GrpcAdvanced.antt =====
-- examples/grpc-advanced/main.go. gRPC itself is not part of the repository: a call of the client
-- runs its interceptor, carries the outgoing metadata to the server, and there runs the server's
-- interceptor and then the handler. Handlers act on a state, so that a test can see whether they ran.
pub mod Auth
pub mod Streams
pub mod Demo
mod Tests
use Prim.Native.String.{String, ◌++◌ as ◌<>◌}
use text.Mathlib.Text.{◌==◌ as str_eq}
use go_examples.Base.{
  ℕ, zero, suc, ◌+◌, Bool, true, false, List, [], ◌∷◌, ◌++◌, Option, none, some, Result, ok, err,
  Error, leaf, wrap, ◌>>=◌, ◌>>◌, leb, ltb, if◌then◌else◌,
}

pub data Leaf : Type 0 where
  unauthenticated deadline_exceeded canceled eof transport : Leaf
  deadline_not_propagated : ℕ → Leaf
  nil_error : Leaf  -- %w applied to a nil error

pub data Context : Type 0 where
  authed_unary_echo expected_unauthenticated expected_deadline opening_stream : Context
  closing_send_side expected_eof : Context
  sending receiving : String → Context

abbrev pub RpcError : Type 0
RpcError = Error Context Leaf

-- Metadata: the entries in the order in which they were appended.
abbrev pub Metadata : Type 0
Metadata = List (String × String)

abbrev pub auth_header : String
auth_header = "authorization"

abbrev pub valid_token : String
valid_token = "Bearer demo-token"

-- `md.Get(key)`
abbrev pub values : String → Metadata → List String
values k [] = []
values k ((j, v) ∷ md) = if str_eq j k then v ∷ values k md else values k md

abbrev pub check_token : List String → Result RpcError (Unit {0})
check_token [] = err (leaf unauthenticated)
check_token (t ∷ ts) = if str_eq t valid_token then ok tt else err (leaf unauthenticated)

-- `none` is a context without incoming metadata.
unfoldable pub check_auth : Option Metadata → Result RpcError (Unit {0})
check_auth none = err (leaf unauthenticated)
check_auth (some md) = check_token (values auth_header md)

-- The unary and the stream interceptor of the server have the same body.
unfoldable pub auth_interceptor {ℓ} :
    {S : Type 0} {A : Type ℓ}
    → Option Metadata
    → (S → S × Result RpcError A)
    → S
    → S × Result RpcError A
unfolding check_auth
auth_interceptor md handler s = elim (check_auth md) [ err e ↦ (s, err e) | ok u ↦ handler s ]

-- The interceptors of the client.
unfoldable pub token_interceptor : Metadata → Metadata
token_interceptor md = md ++ (auth_header, valid_token) ∷ []

-- A connection, by its interceptor.
pub data Conn : Type 0 where
  authed anonymous : Conn

abbrev pub outgoing : Conn → Metadata → Metadata
outgoing authed md = token_interceptor md
outgoing anonymous md = md

unfoldable pub invoke {ℓ} :
    {S : Type 0} {A : Type ℓ}
    → Conn
    → Metadata
    → (S → S × Result RpcError A)
    → S
    → S × Result RpcError A
unfolding auth_interceptor token_interceptor
invoke conn md handler s = auth_interceptor (some (outgoing conn md)) handler s

-- `UnaryEcho`; the state counts the runs of the handler.
abbrev pub unary_echo : String → ℕ → ℕ × Result RpcError String
unary_echo message n = (n + 1, ok ("echo: " <> message))

-- `SlowEcho`: the context ends after `limit` milliseconds, with the error given, or not at all.
-- The select picks what comes first; at the same instant Go may pick either, here the context.
unfoldable pub slow_echo : Option (ℕ × Leaf) → String → ℕ × Result RpcError String
slow_echo none message = (5000, ok ("echo (slow): " <> message))
slow_echo (some (limit, e)) message =
    if leb limit 5000 then (limit, err (leaf e)) else (5000, ok ("echo (slow): " <> message))

-- What `Recv` returns to `BidiEcho`, one after another, and whether each `Send` fails.
pub record Turn : Type 0 where
  pub received : Result RpcError String
  pub send_error : Option RpcError

abbrev pub is_eof : RpcError → Bool
is_eof (leaf eof) = true
is_eof (leaf _) = false
is_eof (wrap c e) = is_eof e

-- `BidiEcho` over the turns of its stream, with the responses sent. `none` is a handler that still
-- waits in Recv.
unfoldable pub bidi_echo : List Turn → List String × Option (Result RpcError (Unit {0}))
bidi_echo [] = ([], none)
bidi_echo (t ∷ ts) =
    let (sent, r) = bidi_echo ts in
    elim t.received [
      | err e ↦ ([], some (if is_eof e then ok tt else err e))
      | ok m ↦ elim t.send_error [
        | some e ↦ ([], some (err e))
        | none ↦ (("echo: " <> m) ∷ sent, r)
      ]
    ]
