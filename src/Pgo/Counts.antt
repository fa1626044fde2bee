-- ===== src/Pgo/Counts.antt =====
-- The map of counts says how often each word occurs.
use go_examples.Base.{
  ℕ, ◌+◌, ◌<◌, ◌≡◌, ◌↔◌, inl, inr, true, false, List, [], ◌∷◌, arith, if◌then◌else◌, Bool-cases,
  All,
}
use go_examples.Pgo.{Text, increment, same_text}
use go_examples.Pgo.Words.{count_words}
use go_examples.Pgo.Order.{In}

pub same_text_iff : (s t : Text) → (same_text s t ≡ true) ↔ (s ≡ t)
same_text_iff [] [] = ground arith
same_text_iff [] (b ∷ t) = ground arith
same_text_iff (a ∷ s) [] = ground arith
same_text_iff (a ∷ s) (b ∷ t) = ground (arith, same_text_iff s t)

abbrev pub occurrences : Text → List Text → ℕ
occurrences v [] = 0
occurrences v (w ∷ ws) = (if same_text v w then 1 else 0) + occurrences v ws

abbrev pub count_of : Text → List (Text × ℕ) → ℕ
count_of v [] = 0
count_of v ((w, n) ∷ rest) = if same_text v w then n else count_of v rest

count_of-increment :
    (v w : Text) (counts : List (Text × ℕ))
    → count_of v (increment w counts) ≡ count_of v counts + (if same_text v w then 1 else 0)
unfolding increment
count_of-increment v w [] = ground arith
count_of-increment v w ((u, n) ∷ rest) =
    ground
      (arith, same_text_iff v w, same_text_iff v u, same_text_iff w u, count_of-increment v w rest)

pub count_of-count_words :
    (v : Text) (ws : List Text) (counts : List (Text × ℕ))
    → count_of v (count_words ws counts) ≡ count_of v counts + occurrences v ws
count_of-count_words v [] counts = omega arith
count_of-count_words v (w ∷ ws) counts =
    omega (arith, count_of-count_words v ws (increment w counts), count_of-increment v w counts)

abbrev Fresh : Text → List (Text × ℕ) → Type 0
Fresh w counts = All (λ (e : Text × ℕ). same_text w e.0 ≡ false) counts

-- No word stands twice.
abbrev pub Distinct : List (Text × ℕ) → Type 0
Distinct [] = Unit {0}
Distinct ((w, n) ∷ rest) = Fresh w rest × Distinct rest

increment-Fresh :
    (v w : Text) (counts : List (Text × ℕ))
    → same_text v w ≡ false
    → Fresh v counts
    → Fresh v (increment w counts)
unfolding increment
increment-Fresh v w [] h f = (h, tt)
increment-Fresh v w ((u, n) ∷ rest) h (f, fs) = elim (Bool-cases (same_text w u)) [
  | inl t ↦ rw t (f, fs)
  | inr t ↦ rw t (f, increment-Fresh v w rest h fs)
]

increment-Distinct :
    (w : Text) (counts : List (Text × ℕ)) → Distinct counts → Distinct (increment w counts)
unfolding increment
increment-Distinct w [] d = (tt, tt)
increment-Distinct w ((u, n) ∷ rest) (f, d) = elim (Bool-cases (same_text w u)) [
  | inl t ↦ rw t (f, d)
  | inr t ↦ rw t (
    increment-Fresh u w rest (ground (arith, same_text_iff w u, same_text_iff u w, t)) f,
    increment-Distinct w rest d,
  )
]

pub count_words-Distinct :
    (ws : List Text) (counts : List (Text × ℕ)) → Distinct counts → Distinct (count_words ws counts)
count_words-Distinct [] counts d = d
count_words-Distinct (w ∷ ws) counts d =
    count_words-Distinct ws (increment w counts) (increment-Distinct w counts d)

In-Fresh :
    (v w : Text) (n : ℕ) (counts : List (Text × ℕ))
    → Fresh v counts
    → In (w, n) counts
    → same_text v w ≡ false
In-Fresh v w n [] f h = absurd h
In-Fresh v w n (e ∷ rest) (f, fs) (inl p) = ground (arith, f, p)
In-Fresh v w n (e ∷ rest) (f, fs) (inr h) = In-Fresh v w n rest fs h

pub In-count_of :
    (w : Text) (n : ℕ) (counts : List (Text × ℕ))
    → Distinct counts
    → In (w, n) counts
    → count_of w counts ≡ n
In-count_of w n [] d h = absurd h
In-count_of w n ((u, m) ∷ rest) (f, d) (inl p) = ground (arith, same_text_iff w u, p)
In-count_of w n ((u, m) ∷ rest) (f, d) (inr h) =
    ground (
      arith,
      In-Fresh u w n rest f h,
      same_text_iff w u,
      same_text_iff u w,
      In-count_of w n rest d h,
    )

pub count_of-In :
    (v : Text) (n : ℕ) (counts : List (Text × ℕ)) → 0 < n → count_of v counts ≡ n → In (v, n) counts
count_of-In v n [] l h = ground (arith, h, l)
count_of-In v n ((w, m) ∷ rest) l h = elim (Bool-cases (same_text v w)) [
  | inl t ↦ inl (ground (arith, same_text_iff v w, t, h))
  | inr t ↦ inr (count_of-In v n rest l (ground (arith, h, t)))
]
