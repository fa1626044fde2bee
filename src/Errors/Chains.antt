-- ===== src/Errors/Chains.antt =====
-- What a caller of loadProfile finds in its error.
use go_examples.Base.{
  ◌≡◌, refl, Bool, true, false, Option, none, some, Result, ok, err, arith, leb, ltb, if◌then◌else◌,
}
use go_examples.Errors.{
  ℤ, pos, negsuc, err_not_found, err_forbidden, AppError, ValidationError, must_be_positive,
  is_error, as_validation, find_user, load_profile,
}

-- What errors.Is of each sentinel and errors.As see in a result.
pub record Seen : Type 0 where
  pub not_found : Bool
  pub forbidden : Bool
  pub invalid : Option ValidationError

abbrev pub seen : Result AppError (Unit {0}) → Option Seen
seen (ok u) = none
seen (err e) = some (record {
  not_found = is_error err_not_found e;
  forbidden = is_error err_forbidden e;
  invalid = as_validation e;
})

abbrev pub expected : ℤ → Option Seen
expected (negsuc n) =
    some (record { not_found = false; forbidden = false; invalid = some must_be_positive })
expected (pos n) =
    if ltb 0 n
    then (if leb n 100
        then none
        else some (record { not_found = true; forbidden = false; invalid = none }))
    else some (record { not_found = false; forbidden = false; invalid = some must_be_positive })

-- Through both wrappers, loadProfile of an id below 1 shows the ValidationError on the field id and no
-- sentinel, of an id above 100 ErrNotFound only, and of an id from 1 to 100 it returns nil.
pub load_profile_seen : (user_id : ℤ) → seen (load_profile user_id) ≡ expected user_id
unfolding load_profile find_user is_error as_validation
load_profile_seen (negsuc n) = refl
load_profile_seen (pos n) = ground arith
