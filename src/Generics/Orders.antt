-- ===== src/Generics/Orders.antt =====
-- The order of a map's range is forgotten when the keys are sorted.
use mathlib.Core.Path.{subst}
use mathlib.Core.List
use mathlib.Core.List.{Perm}
use mathlib.Core.List.Perm
use mathlib.Core.Quot
use mathlib.Core.Quot.{Quot}
use go_examples.Base.{
  map, either_branch, ◌≡◌, refl, ap, ◌∙◌, sym, true, List, [], ◌∷◌, Option, none, some,
  if◌then◌else◌, arith,
}
use go_examples.Generics.{Ordered, keys, min_from, min_slice, insert, sort}
use go_examples.Generics.Slices.{keys-map}

-- A list whose first elements are at most the later ones.
abbrev pub AtMost {ℓ} : {A : Type ℓ} → Ordered A → A → List A → Type 0
AtMost o x [] = Unit
AtMost o x (y ∷ ys) = (o.le x y ≡ true) × AtMost o x ys

abbrev pub IsSorted {ℓ} : {A : Type ℓ} → Ordered A → List A → Type 0
IsSorted o [] = Unit
IsSorted o (x ∷ xs) = AtMost o x xs × IsSorted o xs

module _ {ℓ} {A : Type ℓ} (o : Ordered A) where
  open o use {is_set, le, le_total, le_trans, le_antisym}

  insert-insert : (a b : A) (xs : List A) → insert o a (insert o b xs) ≡ insert o b (insert o a xs)
  unfolding insert
  insert-insert a b [] = ground (arith, le_total a b, le_antisym a b)
  insert-insert a b (x ∷ xs) = ground (
    arith,
    insert-insert a b xs,
    le_total a b,
    le_antisym a b,
    le_trans a b x,
    le_trans b a x,
    le_total a x,
    le_total b x,
  )

  sort-foldr : (xs : List A) → sort o xs ≡ List.foldr (insert o) [] xs
  unfolding sort
  sort-foldr [] = refl
  sort-foldr (x ∷ xs) = ap (insert o x) (sort-foldr xs)

  sort-Perm : {xs ys : List A} → Perm xs ys → sort o xs ≡ sort o ys
  sort-Perm {xs} {ys} p =
      sort-foldr xs
      ∙ Perm.foldr-eq (List.is_set is_set) (insert o) insert-insert p []
      ∙ sym (sort-foldr ys)

  AtMost-insert :
      (x y : A) (ys : List A) → le x y ≡ true → AtMost o x ys → AtMost o x (insert o y ys)
  unfolding insert
  AtMost-insert x y [] e h = (e, tt)
  AtMost-insert x y (z ∷ zs) e (f, h) =
      either_branch (AtMost o x) (le y z) (y ∷ z ∷ zs) (z ∷ insert o y zs) (λ _. (e, (f, h)))
        (λ _. (f, AtMost-insert x y zs e h))

  AtMost-trans : (x y : A) (ys : List A) → le x y ≡ true → AtMost o y ys → AtMost o x ys
  AtMost-trans x y [] e h = tt
  AtMost-trans x y (z ∷ zs) e (f, h) = (le_trans x y z e f, AtMost-trans x y zs e h)

  insert-IsSorted : (x : A) (xs : List A) → IsSorted o xs → IsSorted o (insert o x xs)
  unfolding insert
  insert-IsSorted x [] h = (tt, tt)
  insert-IsSorted x (y ∷ ys) (f, h) =
      either_branch (IsSorted o) (le x y) (x ∷ y ∷ ys) (y ∷ insert o x ys)
        (λ q. ((q, AtMost-trans x y ys q f), (f, h)))
        (λ q.
          let g : le y x ≡ true = ground (arith, le_total x y, q) in
          (AtMost-insert y x ys g f, insert-IsSorted x ys h))

  pub sort-IsSorted : (xs : List A) → IsSorted o (sort o xs)
  unfolding sort
  sort-IsSorted [] = tt
  sort-IsSorted (x ∷ xs) = insert-IsSorted x (sort o xs) (sort-IsSorted xs)

  insert-Perm : (x : A) (xs : List A) → Perm (insert o x xs) (x ∷ xs)
  unfolding insert
  insert-Perm x [] = Perm.refl (x ∷ [])
  insert-Perm x (y ∷ ys) =
      either_branch (λ l. Perm l (x ∷ y ∷ ys)) (le x y) (x ∷ y ∷ ys) (y ∷ insert o x ys)
        (λ _. Perm.refl (x ∷ y ∷ ys))
        (λ _. Perm.trans (Perm.cons y (insert-Perm x ys)) (Perm.swap _ _ _))

  sorted-Perm : (xs : List A) → Perm (sort o xs) xs
  unfolding sort
  sorted-Perm [] = Perm.refl []
  sorted-Perm (x ∷ xs) = Perm.trans (insert-Perm x (sort o xs)) (Perm.cons x (sorted-Perm xs))

  abbrev pub first : List A → Option A
  first [] = none
  first (x ∷ xs) = some x

  abbrev lesser : A → List A → A
  lesser x [] = x
  lesser x (y ∷ ys) = if le x y then x else y

  first-insert : (x : A) (ys : List A) → first (insert o x ys) ≡ some (lesser x ys)
  unfolding insert
  first-insert x [] = refl
  first-insert x (y ∷ ys) = ground arith

  lesser-insert :
      (m x : A) (ys : List A) → lesser m (insert o x ys) ≡ lesser (if le m x then m else x) ys
  unfolding insert
  lesser-insert m x [] = refl
  lesser-insert m x (y ∷ ys) = ground (
    arith,
    le_trans m x y,
    le_total m x,
    le_total x y,
    le_total m y,
    le_trans x m y,
    le_antisym m x,
    le_antisym m y,
    le_trans m y x,
  )

  min_from-sort : (m : A) (s : List A) → some (min_from o m s) ≡ first (insert o m (sort o s))
  unfolding min_from sort
  min_from-sort m [] = sym (first-insert m [])
  min_from-sort m (x ∷ s) =
      min_from-sort (if le m x then m else x) s
      ∙ first-insert (if le m x then m else x) (sort o s)
      ∙ ap some (sym (lesser-insert m x (sort o s)))
      ∙ sym (first-insert m (insert o x (sort o s)))

  min_slice-sort : (s : List A) → min_slice o s ≡ first (sort o s)
  unfolding min_slice sort
  min_slice-sort [] = refl
  min_slice-sort (x ∷ s) = min_from-sort x s

  module _ {κ} (V : Type κ) where
    pub sort-keys : {m m' : List (A × V)} → Perm m m' → sort o (keys m) ≡ sort o (keys m')
    sort-keys {m} {m'} p =
        ap (sort o) (keys-map m)
        ∙ sort-Perm (Perm.map (λ e. e.0) p)
        ∙ ap (sort o) (sym (keys-map m'))

    -- A Go map: its entries, less their order.
    abbrev pub GoMap : Type (ℓ ⊔ κ)
    GoMap = Quot (Perm {A = A × V})

    -- What `main` prints: a function of the map.
    unfoldable pub sorted_keys : GoMap → List A
    sorted_keys = Quot.lift (List.is_set is_set) (λ m. sort o (keys m)) (λ m m' p. sort-keys p)

    -- In whatever order a range takes a map's entries, its keys sorted are the same list; that has the key of each
    -- entry, as often as the entries do, and nothing else, is sorted, and begins with what `Min` gives for the
    -- keys, which panics when there are none.
    pub keys_in_one_order :
        {m m' : List (A × V)}
        → Perm m m'
        → (sort o (keys m) ≡ sort o (keys m'))
          × Perm (sort o (keys m)) (map (λ e. e.0) m)
          × IsSorted o (sort o (keys m))
          × (min_slice o (keys m') ≡ first (sort o (keys m)))
    keys_in_one_order {m} {m'} p = (
      sort-keys p,
      subst (λ l. Perm (sort o (keys m)) l) (keys-map m) (sorted-Perm (keys m)),
      sort-IsSorted (keys m),
      min_slice-sort (keys m') ∙ ap first (sym (sort-keys p)),
    )
