-- ===== src/ErrGroup/Slots.antt =====
-- How many slots are active and how many have failed.
use go_examples.Base.{
  ℕ, zero, suc, ◌+◌, ◌≡◌, refl, ap, true, List, [], ◌∷◌, map, length, Option, none, some, arith,
}
use go_examples.ErrGroup.{
  fetch_result, Slot, pending, active, stored, failed, all_pending, active_count, start_next,
  return_at, all_returned, result_slice,
}

abbrev pub is_failed : Slot → ℕ
is_failed failed = 1
is_failed _ = 0

abbrev pub failed_count : List Slot → ℕ
failed_count [] = 0
failed_count (s ∷ ss) = is_failed s + failed_count ss

abbrev pub Started : List Slot → Option (List Slot) → Type 0
Started ss none = Unit
Started ss (some ts) =
    (active_count ts ≡ suc (active_count ss))
    × (failed_count ts ≡ failed_count ss)
    × (length ts ≡ length ss)

start_next-cons :
    (s : Slot) (ss : List Slot) (o : Option (List Slot))
    → Started ss o
    → Started (s ∷ ss) (elim o [ none ↦ none | some ts ↦ some (s ∷ ts) ])
start_next-cons s ss none h = tt
start_next-cons pending ss (some ts) h = ground (arith, h)
start_next-cons active ss (some ts) h = ground (arith, h)
start_next-cons stored ss (some ts) h = ground (arith, h)
start_next-cons failed ss (some ts) h = ground (arith, h)

pub start_next-Started : (ss : List Slot) → Started ss (start_next ss)
start_next-Started [] = tt
start_next-Started (pending ∷ ss) = ground arith
start_next-Started (active ∷ ss) = start_next-cons active ss (start_next ss) (start_next-Started ss)
start_next-Started (stored ∷ ss) = start_next-cons stored ss (start_next ss) (start_next-Started ss)
start_next-Started (failed ∷ ss) = start_next-cons failed ss (start_next ss) (start_next-Started ss)

-- `r` is what a slot becomes when its function returns.
abbrev pub Returned : Slot → List Slot → Option (List Slot × ℕ) → Type 0
Returned r ss none = Unit
Returned r ss (some (ts, id)) =
    (suc (active_count ts) ≡ active_count ss)
    × (failed_count ts ≡ is_failed r + failed_count ss)
    × (length ts ≡ length ss)

return_at-cons :
    (r s : Slot) (ss : List Slot) (o : Option (List Slot × ℕ))
    → Returned r ss o
    → Returned r (s ∷ ss) (elim o [ none ↦ none | some x ↦ some (s ∷ x.0, x.1) ])
return_at-cons r s ss none h = tt
return_at-cons r pending ss (some (ts, id)) h = ground (arith, h)
return_at-cons r active ss (some (ts, id)) h = ground (arith, h)
return_at-cons r stored ss (some (ts, id)) h = ground (arith, h)
return_at-cons r failed ss (some (ts, id)) h = ground (arith, h)

pub return_at-Returned :
    (k : ℕ) (r : Slot) (ids : List ℕ) (ss : List Slot)
    → active_count (r ∷ []) ≡ 0
    → Returned r ss (return_at k r ids ss)
return_at-Returned k r [] ss h = tt
return_at-Returned k r (id ∷ ids) [] h = tt
return_at-Returned zero stored (id ∷ ids) (active ∷ ss) h = ground arith
return_at-Returned zero failed (id ∷ ids) (active ∷ ss) h = ground arith
return_at-Returned zero pending (id ∷ ids) (active ∷ ss) h = ground arith
return_at-Returned zero active (id ∷ ids) (active ∷ ss) h = ground (arith, h)
return_at-Returned zero r (id ∷ ids) (pending ∷ ss) h = tt
return_at-Returned zero r (id ∷ ids) (stored ∷ ss) h = tt
return_at-Returned zero r (id ∷ ids) (failed ∷ ss) h = tt
return_at-Returned (suc k) r (id ∷ ids) (s ∷ ss) h =
    return_at-cons r s ss (return_at k r ids ss) (return_at-Returned k r ids ss h)

pub all_pending_counts :
    (ids : List ℕ)
    → (length (all_pending ids) ≡ length ids)
      × (failed_count (all_pending ids) ≡ 0)
      × (active_count (all_pending ids) ≡ 0)
all_pending_counts [] = ground arith
all_pending_counts (id ∷ ids) = ground (arith, all_pending_counts ids)

pub all_stored :
    (ids : List ℕ) (ss : List Slot)
    → length ss ≡ length ids
    → failed_count ss ≡ 0
    → all_returned ss ≡ true
    → result_slice ids ss ≡ map fetch_result ids
all_stored [] ss n c r = refl
all_stored (id ∷ ids) [] n c r = ground (arith, n)
all_stored (id ∷ ids) (pending ∷ ss) n c r = ground (arith, r)
all_stored (id ∷ ids) (active ∷ ss) n c r = ground (arith, r)
all_stored (id ∷ ids) (stored ∷ ss) n c r =
    ap (λ rs. fetch_result id ∷ rs) (all_stored ids ss (omega (arith, n)) (omega (arith, c)) r)
all_stored (id ∷ ids) (failed ∷ ss) n c r = ground (arith, c)
