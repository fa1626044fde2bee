-- ===== src/GrpcAdvanced/Auth.antt =====
-- Which calls reach a handler.
use Prim.Native.String.{String}
use text.Mathlib.Text.{◌==◌ as str_eq}
use go_examples.Base.{
  ◌≡◌, refl, Bool, true, false, List, [], ◌∷◌, ◌++◌, Result, ok, err, leaf, arith, if◌then◌else◌,
}
use go_examples.GrpcAdvanced.{
  RpcError, unauthenticated, Metadata, auth_header, valid_token, values, check_token, check_auth,
  auth_interceptor, token_interceptor, authed, anonymous, invoke,
}

-- The first value of the authorization header, if any, is the token.
abbrev pub first_is_token : List String → Bool
first_is_token [] = false
first_is_token (t ∷ ts) = str_eq t valid_token

abbrev pub is_empty : List String → Bool
is_empty [] = true
is_empty (t ∷ ts) = false

values-append :
    (md : Metadata) (v : String)
    → values auth_header (md ++ (auth_header, v) ∷ []) ≡ values auth_header md ++ v ∷ []
values-append [] v = refl
values-append ((j, w) ∷ md) v = ground (arith, values-append md v)

check_token_first :
    (ts : List String)
    → check_token ts ≡ (if first_is_token ts then ok tt else err (leaf unauthenticated))
check_token_first [] = refl
check_token_first (t ∷ ts) = refl

-- A connection without interceptor is served exactly when the first authorization value of its
-- metadata is the token, one with the token interceptor also when there is no such value; the
-- interceptor appends, so a first value that is not the token is not repaired. Otherwise the call
-- fails with Unauthenticated and the handler does not run.
pub invoke_served {ℓ} :
    {S : Type 0} {A : Type ℓ} (handler : S → S × Result RpcError A) (s : S) (md : Metadata)
    → let refused : S × Result RpcError A = (s, err (leaf unauthenticated)) in
      let first = values auth_header md in
      (invoke anonymous md handler s ≡ (if first_is_token first then handler s else refused))
      × (invoke authed md handler s ≡ (
          if is_empty first
          then handler s
          else if first_is_token first
          then handler s
          else refused))
unfolding invoke auth_interceptor check_auth token_interceptor
invoke_served handler s md = (
  ground (arith, check_token_first (values auth_header md)),
  ground (arith, values-append md valid_token, check_token_first (values auth_header md)),
)
