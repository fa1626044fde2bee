-- ===== src/Readers/Limited.antt =====
-- The readers of the example meet the contract, and what the combinators make of the content.
use go_examples.Base.{
  ℕ, zero, suc, ◌-◌, ◌≤◌, ◌<◌, ◌≡◌, refl, ap, ◌∙◌, inl, inr, [], ◌∷◌, ◌++◌, none, some, arith, take,
  length, leb, leb→le, if◌then◌else◌, Bool-cases,
}
use go_examples.Readers.{Bytes, eof, Reader, skip, read_string, read_tee, read_limited}

take-skip : (n : ℕ) (xs : Bytes) → xs ≡ take n xs ++ skip n xs
take-skip zero xs = refl
take-skip (suc n) [] = refl
take-skip (suc n) (x ∷ xs) = ap (λ l. x ∷ l) (take-skip n xs)

length-take : (n : ℕ) (xs : Bytes) → length (take n xs) ≤ n
length-take zero xs = omega arith
length-take (suc n) [] = omega arith
length-take (suc n) (x ∷ xs) = omega (arith, length-take n xs)

pub string-content : (n : ℕ) (s : Bytes) → s ≡ (read_string n s).chunk ++ (read_string n s).next
string-content n [] = refl
string-content n (x ∷ xs) = take-skip n (x ∷ xs)

pub string-bounded : (n : ℕ) (s : Bytes) → length (read_string n s).chunk ≤ n
string-bounded n [] = omega arith
string-bounded n (x ∷ xs) = length-take n (x ∷ xs)

pub string-eof :
    (n : ℕ) (s : Bytes) → (read_string n s).error ≡ some eof → (read_string n s).next ≡ []
string-eof n [] h = refl
string-eof n (x ∷ xs) h = ground (arith, h)

pub string-progress :
    (n : ℕ) (s : Bytes)
    → 0 < n
    → (read_string n s).error ≡ none
    → 0 < length (read_string n s).chunk
string-progress n [] p h = ground (arith, h)
string-progress zero (x ∷ xs) p h = ground (arith, p)
string-progress (suc n) (x ∷ xs) p h = omega arith

abbrev pub string_reader : Reader
string_reader = record {
  State = Bytes;
  read = read_string;
  content = λ s. s;
  content-read = string-content;
  read-bounded = string-bounded;
  read-eof = string-eof;
  read-progress = string-progress;
}

-- The first bytes of a chunk and what follows it.
take-append :
    (n : ℕ) (xs ys : Bytes) → length xs ≤ n → take n (xs ++ ys) ≡ xs ++ take (n - length xs) ys
take-append n [] ys l = ap (λ i. take i ys) (omega arith)
take-append zero (x ∷ xs) ys l = ground (arith, l)
take-append (suc n) (x ∷ xs) ys l =
    ap (λ t. x ∷ t)
      (take-append n xs ys (omega (arith, l)) ∙ ap (λ i. xs ++ take i ys) (omega arith))

take_nil : (n : ℕ) → take {A = ℕ} n [] ≡ []
take_nil zero = refl
take_nil (suc n) = refl

smaller :
    (n left : ℕ)
    → ((if leb n left then n else left) ≤ n) × ((if leb n left then n else left) ≤ left)
smaller n left = elim (Bool-cases (leb n left)) [
  | inl t ↦ ground (arith, t, leb→le n left t)
  | inr t ↦ ground (arith, t)
]

module _ (r : Reader) where
  open r use {State, read, content, content-read, read-bounded, read-eof, read-progress}

  abbrev pub limited_content : State × ℕ → Bytes
  limited_content (s, left) = take left (content s)

  pub limited-content :
      (n : ℕ) (x : State × ℕ)
      → limited_content x ≡ (read_limited r n x).chunk ++ limited_content (read_limited r n x).next
  limited-content n (s, zero) = refl
  limited-content n (s, suc left) =
      let k = if leb n (suc left) then n else suc left in
      let x = read k s in
      ap (take (suc left)) (content-read k s)
      ∙ take-append (suc left) x.chunk (content x.next)
          (omega (arith, read-bounded k s, (smaller n (suc left)).1))

  pub limited-bounded : (n : ℕ) (x : State × ℕ) → length (read_limited r n x).chunk ≤ n
  limited-bounded n (s, zero) = omega arith
  limited-bounded n (s, suc left) =
      let k = if leb n (suc left) then n else suc left in
      omega (arith, read-bounded k s, (smaller n (suc left)).0)

  pub limited-eof :
      (n : ℕ) (x : State × ℕ)
      → (read_limited r n x).error ≡ some eof
      → limited_content (read_limited r n x).next ≡ []
  limited-eof n (s, zero) h = refl
  limited-eof n (s, suc left) h =
      let k = if leb n (suc left) then n else suc left in
      ap (take (suc left - length (read k s).chunk)) (read-eof k s h)
      ∙ take_nil (suc left - length (read k s).chunk)

  pub limited-progress :
      (n : ℕ) (x : State × ℕ)
      → 0 < n
      → (read_limited r n x).error ≡ none
      → 0 < length (read_limited r n x).chunk
  limited-progress n (s, zero) p h = ground (arith, h)
  limited-progress n (s, suc left) p h =
      let k = if leb n (suc left) then n else suc left in read-progress k s (ground (arith, p)) h

  -- A limited reader is a reader of the first bytes of the content.
  abbrev pub limit_reader : Reader
  limit_reader = record {
    State = State × ℕ;
    read = read_limited r;
    content = limited_content;
    content-read = limited-content;
    read-bounded = limited-bounded;
    read-eof = limited-eof;
    read-progress = limited-progress;
  }

  abbrev pub tee_content : State × Bytes → Bytes
  tee_content (s, seen) = content s

  abbrev pub tee_reader : Reader
  tee_reader = record {
    State = State × Bytes;
    read = read_tee r;
    content = tee_content;
    content-read = λ n x. content-read n x.0;
    read-bounded = λ n x. read-bounded n x.0;
    read-eof = λ n x. read-eof n x.0;
    read-progress = λ n x. read-progress n x.0;
  }
