-- ===== src/Generics/Tests.antt =====
-- Slices and maps of numbers, and the theorems on them.
use mathlib.Core.List
use mathlib.Core.List.{Perm}
use mathlib.Core.List.Perm
use native.Mathlib.Nat.{ℕ_set}
use go_examples.Base.{
  ℕ, ◌+◌, ◌*◌, ◌%◌, ◌==◌, ◌≡◌, ◌⊎◌, refl, Bool, true, List, [], ◌∷◌, map, none, some, leb, arith,
}
use go_examples.Generics.{
  Ordered, map_slice, filter_slice, reduce, keys, min_slice, sort, Maybe, some_of, none_of,
  is_present, unwrap, or_else,
}
use go_examples.Generics.Slices.{filter, mapped_kept, one_pass}
use go_examples.Generics.Orders.{IsSorted, first, keys_in_one_order}

leb_total : (a b : ℕ) → (leb a b ≡ true) ⊎ (leb b a ≡ true)
leb_total a b = ground arith

leb_trans : (a b c : ℕ) → leb a b ≡ true → leb b c ≡ true → leb a c ≡ true
leb_trans a b c p q = ground (arith, p, q)

leb_antisym : (a b : ℕ) → leb a b ≡ true → leb b a ≡ true → a ≡ b
leb_antisym a b p q = ground (arith, p, q)

abbrev numbers : Ordered ℕ
numbers = record {
  is_set = ℕ_set;
  le = leb;
  le_total = leb_total;
  le_trans = leb_trans;
  le_antisym = leb_antisym;
}

abbrev nums : List ℕ
nums = 1 ∷ 2 ∷ 3 ∷ 4 ∷ 5 ∷ 6 ∷ []

abbrev double : ℕ → ℕ
double n = n * 2

abbrev is_even : ℕ → Bool
is_even n = n % 2 == 0

abbrev add : ℕ → ℕ → ℕ
add acc n = acc + n

main-run :
    (map_slice 0 nums double ≡ some (2 ∷ 4 ∷ 6 ∷ 8 ∷ 10 ∷ 12 ∷ []))
    × (filter_slice nums is_even ≡ 2 ∷ 4 ∷ 6 ∷ [])
    × (reduce nums 0 add ≡ 21)
    × (min_slice numbers (3 ∷ 1 ∷ 2 ∷ []) ≡ some 1)
unfolding map_slice filter_slice reduce min_slice
main-run = (refl, refl, refl, refl)

abbrev answer : Maybe ℕ
answer = some_of 42

abbrev no_answer : Maybe ℕ
no_answer = none_of

options-run :
    (or_else answer 0 ≡ 42)
    × (or_else no_answer 0 ≡ 0)
    × (is_present answer ≡ true)
    × (unwrap no_answer ≡ none)
unfolding or_else is_present unwrap
options-run = (refl, refl, refl, refl)

one_pass_example :
    (map_slice 0 nums double ≡ some (map double nums))
    × (filter_slice (map double nums) is_even ≡ filter is_even (map double nums))
    × (reduce (filter_slice (map double nums) is_even) 0 add
        ≡ List.foldl (mapped_kept double is_even add) 0 nums)
one_pass_example = one_pass double is_even add 0 nums 0

abbrev entries : List (ℕ × ℕ)
entries = (7, 1) ∷ (5, 2) ∷ []

abbrev entries_swapped : List (ℕ × ℕ)
entries_swapped = (5, 2) ∷ (7, 1) ∷ []

keys_in_one_order_example :
    (sort numbers (keys entries) ≡ sort numbers (keys entries_swapped))
    × Perm (sort numbers (keys entries)) (7 ∷ 5 ∷ [])
    × IsSorted numbers (sort numbers (keys entries))
    × (min_slice numbers (keys entries_swapped) ≡ first numbers (sort numbers (keys entries)))
keys_in_one_order_example = keys_in_one_order numbers ℕ (Perm.swap _ _ _)
