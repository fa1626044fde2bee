-- ===== src/Generics/Slices.antt =====
-- The loops on slices are the functions on lists.
use mathlib.Core.List
use mathlib.Core.List.{append_assoc, append-nil}
use go_examples.Base.{
  suc, ◌≡◌, refl, ap, ◌∙◌, sym, Bool, true, false, List, [], ◌∷◌, ◌++◌, map, some, length,
  replicate, if◌then◌else◌,
}
use go_examples.Generics.{
  put, assign, map_from, map_slice, reduce, filter_from, filter_slice, keys_from, keys,
}

abbrev pub filter {ℓ} : {A : Type ℓ} → (A → Bool) → List A → List A
filter keep [] = []
filter keep (x ∷ xs) = let rest = filter keep xs in if keep x then x ∷ rest else rest

-- An assignment just behind a prefix.
assign-append {ℓ} :
    {A : Type ℓ} (done : List A) (v y : A) (ys : List A)
    → assign (length done) v (done ++ y ∷ ys) ≡ some (done ++ v ∷ ys)
unfolding assign
assign-append [] v y ys = refl
assign-append (d ∷ done) v y ys = ap (put d) (assign-append done v y ys)

length_snoc {ℓ} : {A : Type ℓ} (xs : List A) (x : A) → length (xs ++ x ∷ []) ≡ suc (length xs)
length_snoc [] x = refl
length_snoc (y ∷ xs) x = ap suc (length_snoc xs x)

module _ {ℓ κ} {T : Type ℓ} {U : Type κ} (f : T → U) (z : U) where
  map_from-append :
      (s : List T) (done : List U)
      → map_from f (length done) s (some (done ++ replicate (length s) z)) ≡ some (done ++ map f s)
  unfolding map_from
  map_from-append [] done = refl
  map_from-append (v ∷ s) done =
      let e = assign-append done (f v) z (replicate (length s) z) in
      let r = map_from-append s (done ++ f v ∷ []) in
      let a = append_assoc done (f v ∷ []) (replicate (length s) z) in
      let b = append_assoc done (f v ∷ []) (map f s) in
      ap (map_from f (suc (length done)) s) (e ∙ ap some (sym a))
      ∙ ap (λ n. map_from f n s (some ((done ++ f v ∷ []) ++ replicate (length s) z)))
          (sym (length_snoc done (f v)))
      ∙ r
      ∙ ap some b

kept-append {ℓ} :
    {A : Type ℓ} (b : Bool) (out : List A) (v : A) (rest : List A)
    → (if b then out ++ v ∷ [] else out) ++ rest ≡ out ++ (if b then v ∷ rest else rest)
kept-append true out v rest = append_assoc out (v ∷ []) rest
kept-append false out v rest = refl

filter_from-append {ℓ} :
    {A : Type ℓ} (keep : A → Bool) (out s : List A) → filter_from keep out s ≡ out ++ filter keep s
unfolding filter_from
filter_from-append keep out [] = sym (append-nil out)
filter_from-append keep out (v ∷ s) =
    filter_from-append keep (if keep v then out ++ v ∷ [] else out) s
    ∙ kept-append (keep v) out v (filter keep s)

reduce-kept {ℓ κ} :
    {A : Type ℓ} {B : Type κ} (b : Bool) (v : A) (s : List A) (acc : B) (g : B → A → B)
    → reduce (if b then v ∷ s else s) acc g ≡ reduce s (if b then g acc v else acc) g
unfolding reduce
reduce-kept true v s acc g = refl
reduce-kept false v s acc g = refl

reduce-foldl {ℓ κ} :
    {A : Type ℓ} {B : Type κ} (s : List A) (acc : B) (f : B → A → B)
    → reduce s acc f ≡ List.foldl f acc s
unfolding reduce
reduce-foldl [] acc f = refl
reduce-foldl (v ∷ s) acc f = reduce-foldl s (f acc v) f

module _ {ℓ κ ι} {A : Type ℓ} {B : Type κ} {C : Type ι} (f : A → B) (keep : B → Bool)
    (g : C → B → C) where
  -- What one pass over the slice does with an element.
  abbrev pub mapped_kept : C → A → C
  mapped_kept acc x = if keep (f x) then g acc (f x) else acc

  reduce-filter-map :
      (s : List A) (acc : C) → reduce (filter keep (map f s)) acc g ≡ reduce s acc mapped_kept
  unfolding reduce
  reduce-filter-map [] acc = refl
  reduce-filter-map (x ∷ s) acc =
      reduce-kept (keep (f x)) (f x) (filter keep (map f s)) acc g
      ∙ reduce-filter-map s (mapped_kept acc x)

  -- `Map` gives the list of the results, without a panic, whatever the zero value is; `Filter` keeps of them those that
  -- pass, in their order; and `Reduce` of these is the left fold, from the initial value, of one pass over the slice.
  pub one_pass :
      (zero_value : B) (s : List A) (acc : C)
      → (map_slice zero_value s f ≡ some (map f s))
        × (filter_slice (map f s) keep ≡ filter keep (map f s))
        × (reduce (filter_slice (map f s) keep) acc g ≡ List.foldl mapped_kept acc s)
  unfolding map_slice filter_slice
  one_pass zero_value s acc = (
    map_from-append f zero_value s [],
    filter_from-append keep [] (map f s),
    ap (λ r. reduce r acc g) (filter_from-append keep [] (map f s))
        ∙ reduce-filter-map s acc
        ∙ reduce-foldl s acc mapped_kept,
  )

keys_from-append {ℓ κ} :
    {K : Type ℓ} {V : Type κ} (out : List K) (m : List (K × V))
    → keys_from out m ≡ out ++ map (λ e. e.0) m
unfolding keys_from
keys_from-append out [] = sym (append-nil out)
keys_from-append out ((k, v) ∷ m) =
    keys_from-append (out ++ k ∷ []) m ∙ append_assoc out (k ∷ []) (map (λ e. e.0) m)

pub keys-map {ℓ κ} : {K : Type ℓ} {V : Type κ} (m : List (K × V)) → keys m ≡ map (λ e. e.0) m
unfolding keys
keys-map m = keys_from-append [] m
