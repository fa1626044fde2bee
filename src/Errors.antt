-- ===== src/Errors.antt =====
-- examples/errors/main.go: sentinel errors, a custom type, and the chains that errors.Is and errors.As
-- walk. Ids are Go ints, so they may be negative.
pub mod Chains
mod Tests
use Prim.Native.String.{String}
use go_examples.Base.{
  ℕ, Bool, true, false, List, [], ◌∷◌, Option, none, some, Result, ok, err, Error, leaf, wrap, leb,
  ltb, if◌then◌else◌,
}

pub data ℤ : Type 0 where
  pos negsuc : ℕ → ℤ  -- n, and -(n + 1)

pub data Sentinel : Type 0 where
  err_not_found err_forbidden : Sentinel

pub record ValidationError : Type 0 where
  pub field : String
  pub text : String

pub data Leaf : Type 0 where
  sentinel : Sentinel → Leaf
  validation : ValidationError → Leaf

pub data Context : Type 0 where
  find_user_context : ℤ → Context
  load_profile_context : Context

abbrev pub AppError : Type 0
AppError = Error Context Leaf

abbrev pub same_sentinel : Sentinel → Sentinel → Bool
same_sentinel err_not_found err_not_found = true
same_sentinel err_forbidden err_forbidden = true
same_sentinel _ _ = false

-- `errors.Is` for a sentinel
unfoldable pub is_error : Sentinel → AppError → Bool
is_error s (leaf (sentinel t)) = same_sentinel s t
is_error s (leaf (validation v)) = false
is_error s (wrap c e) = is_error s e

-- `errors.As` for a ValidationError
unfoldable pub as_validation : AppError → Option ValidationError
as_validation (leaf (sentinel t)) = none
as_validation (leaf (validation v)) = some v
as_validation (wrap c e) = as_validation e

abbrev pub must_be_positive : ValidationError
must_be_positive = record { field = "id"; text = "must be positive" }

unfoldable pub find_user : ℤ → Result AppError (Unit {0})
find_user (negsuc n) = err (leaf (validation must_be_positive))
find_user (pos n) =
    if leb n 0
    then err (leaf (validation must_be_positive))
    else if ltb 100 n
    then err (wrap (find_user_context (pos n)) (leaf (sentinel err_not_found)))
    else ok tt

abbrev pub profile : Result AppError (Unit {0}) → Result AppError (Unit {0})
profile (err e) = err (wrap load_profile_context e)
profile (ok u) = ok tt

unfoldable pub load_profile : ℤ → Result AppError (Unit {0})
unfolding find_user
load_profile user_id = profile (find_user user_id)

-- `errors.Is` on the errors that errors.Join holds
unfoldable pub joined_is : Sentinel → List AppError → Bool
unfolding is_error
joined_is s [] = false
joined_is s (e ∷ es) = if is_error s e then true else joined_is s es
