-- ===== src/Generics.antt =====
-- examples/generics/main.go: the functions on slices and maps, and the optional type. A slice is a list; a Go
-- map is a list of entries in the order that a range happens to take. `none` is a panic.
pub mod Slices
pub mod Orders
mod Tests
use go_examples.Base.{
  ℕ, zero, suc, ◌+◌, ◌≡◌, ◌⊎◌, Bool, true, false, List, [], ◌∷◌, ◌++◌, Option, none, some, length,
  replicate, if◌then◌else◌,
}

-- `out[i] = v`, out of range a panic.
abbrev pub put {ℓ} : {A : Type ℓ} → A → Option (List A) → Option (List A)
put y none = none
put y (some ys) = some (y ∷ ys)

unfoldable pub assign {ℓ} : {A : Type ℓ} → ℕ → A → List A → Option (List A)
assign i v [] = none
assign zero v (y ∷ ys) = some (v ∷ ys)
assign (suc i) v (y ∷ ys) = put y (assign i v ys)

module _ {ℓ κ} {T : Type ℓ} {U : Type κ} where
  -- The loop of `Map` from index i on.
  unfoldable pub map_from : (T → U) → ℕ → List T → Option (List U) → Option (List U)
  unfolding assign
  map_from f i s none = none
  map_from f i [] (some out) = some out
  map_from f i (v ∷ s) (some out) = map_from f (suc i) s (assign i (f v) out)

  -- `Map`: `make` fills the new slice with the zero value of U.
  unfoldable pub map_slice : U → List T → (T → U) → Option (List U)
  unfolding map_from
  map_slice zero_value s f = map_from f 0 s (some (replicate (length s) zero_value))

  -- `Reduce`
  unfoldable pub reduce : List T → U → (U → T → U) → U
  reduce [] acc f = acc
  reduce (v ∷ s) acc f = reduce s (f acc v) f

module _ {ℓ} {T : Type ℓ} where
  -- The loop of `Filter`.
  unfoldable pub filter_from : (T → Bool) → List T → List T → List T
  filter_from keep out [] = out
  filter_from keep out (v ∷ s) = filter_from keep (if keep v then out ++ v ∷ [] else out) s

  unfoldable pub filter_slice : List T → (T → Bool) → List T
  unfolding filter_from
  filter_slice s keep = filter_from keep [] s

-- The loop of `Keys`.
module _ {ℓ κ} {K : Type ℓ} {V : Type κ} where
  unfoldable pub keys_from : List K → List (K × V) → List K
  keys_from out [] = out
  keys_from out ((k, v) ∷ es) = keys_from (out ++ k ∷ []) es

  unfoldable pub keys : List (K × V) → List K
  unfolding keys_from
  keys m = keys_from [] m

-- `cmp.Ordered`, for a type whose order is total, as those of integers and strings.
pub record Ordered {ℓ} (A : Type ℓ) : Type ℓ where
  pub is_set : IsSet A
  pub le : A → A → Bool
  pub le_total : (a b : A) → (le a b ≡ true) ⊎ (le b a ≡ true)
  pub le_trans : (a b c : A) → le a b ≡ true → le b c ≡ true → le a c ≡ true
  pub le_antisym : (a b : A) → le a b ≡ true → le b a ≡ true → a ≡ b

module _ {ℓ} {A : Type ℓ} (o : Ordered A) where
  open o use {le}

  -- `slices.Min` of a first element and the rest, and `Min`.
  unfoldable pub min_from : A → List A → A
  min_from m [] = m
  min_from m (x ∷ s) = min_from (if le m x then m else x) s

  unfoldable pub min_slice : List A → Option A
  unfolding min_from
  min_slice [] = none
  min_slice (x ∷ s) = some (min_from x s)

  -- `slices.Sort`, by insertion.
  unfoldable pub insert : A → List A → List A
  insert x [] = x ∷ []
  insert x (y ∷ ys) = let rest = insert x ys in if le x y then x ∷ y ∷ ys else y ∷ rest

  unfoldable pub sort : List A → List A
  unfolding insert
  sort [] = []
  sort (x ∷ s) = insert x (sort s)

-- `Option[T]`, with a pointer that may be nil.
pub record Maybe {ℓ} (T : Type ℓ) : Type ℓ where
  pub value : Option T

abbrev pub some_of {ℓ} : {T : Type ℓ} → T → Maybe T
some_of v = record { value = some v }

abbrev pub none_of {ℓ} : {T : Type ℓ} → Maybe T
none_of = record { value = none }

unfoldable pub is_present {ℓ} : {T : Type ℓ} → Maybe T → Bool
is_present o = elim o.value [ none ↦ false | some v ↦ true ]

-- A nil pointer is a panic.
unfoldable pub unwrap {ℓ} : {T : Type ℓ} → Maybe T → Option T
unwrap o = o.value

unfoldable pub or_else {ℓ} : {T : Type ℓ} → Maybe T → T → T
or_else o def = elim o.value [ none ↦ def | some v ↦ v ]
