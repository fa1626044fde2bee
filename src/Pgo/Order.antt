-- ===== src/Pgo/Order.antt =====
-- The hottest word does not depend on the iteration order of the map.
use go_examples.Base.{
  ℕ, ◌≡◌, refl, ◌⊎◌, inl, inr, Bool, true, false, List, [], ◌∷◌, arith, if◌then◌else◌,
}
use go_examples.Pgo.{Text, text_lt, beats, best_from}

-- `text_lt` is a strict total order.
text_lt_irrefl : (s : Text) → text_lt s s ≡ false
text_lt_irrefl [] = refl
text_lt_irrefl (a ∷ s) = ground (arith, text_lt_irrefl s)

text_lt_trans : (s t u : Text) → text_lt s t ≡ true → text_lt t u ≡ true → text_lt s u ≡ true
text_lt_trans [] [] u h k = ground (arith, h)
text_lt_trans s (b ∷ t) [] h k = ground (arith, k)
text_lt_trans (a ∷ s) [] u h k = ground (arith, h)
text_lt_trans [] (b ∷ t) (c ∷ u) h k = refl
text_lt_trans (a ∷ s) (b ∷ t) (c ∷ u) h k = ground (arith, h, k, text_lt_trans s t u)

text_lt_total : (s t : Text) → text_lt s t ≡ false → text_lt t s ≡ false → s ≡ t
text_lt_total [] [] h k = refl
text_lt_total [] (b ∷ t) h k = ground (arith, h)
text_lt_total (a ∷ s) [] h k = ground (arith, k)
text_lt_total (a ∷ s) (b ∷ t) h k = ground (arith, h, k, text_lt_total s t)

beats_irrefl : (e : Text × ℕ) → beats e e ≡ false
beats_irrefl (s, m) = ground (arith, text_lt_irrefl s)

beats_trans : (e f g : Text × ℕ) → beats e f ≡ true → beats f g ≡ true → beats e g ≡ true
beats_trans (s, m) (t, n) (u, k) h i = ground (arith, h, i, text_lt_trans s t u)

beats_total : (e f : Text × ℕ) → beats e f ≡ false → beats f e ≡ false → e ≡ f
beats_total (s, m) (t, n) h i = ground (arith, h, i, text_lt_total s t)

abbrev pub In : Text × ℕ → List (Text × ℕ) → Type 0
In a [] = ⊥
In a (b ∷ bs) = (a ≡ b) ⊎ In a bs

-- Nothing in the list, nor the first value, beats the result.
best_beaten :
    (b : Text × ℕ) (es : List (Text × ℕ)) (e : Text × ℕ)
    → (beats e b ≡ false) ⊎ In e es
    → beats e (best_from b es) ≡ false
unfolding best_from
best_beaten b [] e (inl h) = h
best_beaten b [] e (inr h) = absurd h
best_beaten b (f ∷ es) e (inl h) =
    best_beaten (if beats f b then f else b) es e (inl (ground (arith, h, beats_trans e f b)))
best_beaten b (f ∷ es) e (inr (inl p)) =
    best_beaten (if beats f b then f else b) es e (inl (ground (arith, p, beats_irrefl f)))
best_beaten b (f ∷ es) e (inr (inr h)) = best_beaten (if beats f b then f else b) es e (inr h)

best-In_step :
    (b f : Text × ℕ) (es : List (Text × ℕ)) (c : Bool)
    → let r = best_from (if c then f else b) es in
      (r ≡ (if c then f else b)) ⊎ In r es → (r ≡ b) ⊎ In r (f ∷ es)
best-In_step b f es true (inl p) = inr (inl p)
best-In_step b f es true (inr h) = inr (inr h)
best-In_step b f es false (inl p) = inl p
best-In_step b f es false (inr h) = inr (inr h)

pub best-In : (b : Text × ℕ) (es : List (Text × ℕ)) → (best_from b es ≡ b) ⊎ In (best_from b es) es
unfolding best_from
best-In b [] = inl refl
best-In b (f ∷ es) = best-In_step b f es (beats f b) (best-In (if beats f b then f else b) es)

pub best_unbeaten :
    (b : Text × ℕ) (es : List (Text × ℕ)) (e : Text × ℕ)
    → In e es
    → beats e (best_from b es) ≡ false
best_unbeaten b es e h = best_beaten b es e (inr h)

not_better :
    (b : Text × ℕ) (xs ys : List (Text × ℕ))
    → ((e : Text × ℕ) → In e xs → In e ys)
    → beats (best_from b xs) (best_from b ys) ≡ false
not_better b xs ys h = elim (best-In b xs) [
  | inl p ↦ rw p (best_beaten b ys b (inl (beats_irrefl b)))
  | inr i ↦ best_beaten b ys (best_from b xs) (inr (h (best_from b xs) i))
]

-- Two orders of the same entries give the same result.
pub best_of_same :
    (b : Text × ℕ) (xs ys : List (Text × ℕ))
    → ((e : Text × ℕ) → In e xs → In e ys)
    → ((e : Text × ℕ) → In e ys → In e xs)
    → best_from b xs ≡ best_from b ys
best_of_same b xs ys h k =
    beats_total (best_from b xs) (best_from b ys) (not_better b xs ys h) (not_better b ys xs k)
