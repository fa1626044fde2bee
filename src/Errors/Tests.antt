-- ===== src/Errors/Tests.antt =====
-- The cases of main.
use go_examples.Base.{◌≡◌, refl, true, false, [], ◌∷◌, none, some, leaf}
use go_examples.Errors.{
  pos, err_not_found, err_forbidden, sentinel, is_error, joined_is, load_profile,
}
use go_examples.Errors.Chains.{seen, load_profile_seen}

load_profile_seen_instance :
    seen (load_profile (pos 999))
    ≡ some (record { not_found = true; forbidden = false; invalid = none })
load_profile_seen_instance = load_profile_seen (pos 999)

joined :
    joined_is err_forbidden (leaf (sentinel err_not_found) ∷ leaf (sentinel err_forbidden) ∷ [])
    ≡ true
unfolding joined_is is_error
joined = refl
