-- ===== src/Pgo/Words.antt =====
-- The scan by places counts the words of the text.
use go_examples.Base.{
  ℕ, zero, suc, ◌+◌, ◌-◌, ◌≤◌, ◌≡◌, ◌≢◌, refl, sym, ap, ◌∙◌, inl, inr, List, [], ◌∷◌, ◌++◌, Option,
  none, some, arith, ◌==◌, if◌then◌else◌, Bool-cases, take,
}
use go_examples.Pgo.{Text, drop, slice, increment, end_word, begin_word, scan, word_counts}

-- The text split at spaces, without empty words.
abbrev pub flush : Text → List Text → List Text
flush [] ws = ws
flush (c ∷ cs) ws = (c ∷ cs) ∷ ws

abbrev pub words_from : Text → Text → List Text
words_from word [] = flush word []
words_from word (c ∷ rest) =
    let space = flush word (words_from [] rest) in
    let other = words_from (word ++ c ∷ []) rest in if c == b' ' then space else other

abbrev pub words : Text → List Text
words text = words_from [] text

abbrev pub count_words : List Text → List (Text × ℕ) → List (Text × ℕ)
count_words [] counts = counts
count_words (w ∷ ws) counts = count_words ws (increment w counts)

take-drop_next :
    (k : ℕ) (s : Text) (c : ℕ) (rest : Text)
    → drop k s ≡ c ∷ rest
    → (take (suc k) s ≡ take k s ++ c ∷ []) × (drop (suc k) s ≡ rest)
take-drop_next zero [] c rest h = ground (arith, h)
take-drop_next (suc k) [] c rest h = ground (arith, h)
take-drop_next zero (x ∷ s) c rest h = (ground (arith, h), ground (arith, h))
take-drop_next (suc k) (x ∷ s) c rest h =
    let (p, q) = take-drop_next k s c rest h in (ap (λ t. x ∷ t) p, q)

drop_nil : (k : ℕ) → drop k [] ≡ []
drop_nil zero = refl
drop_nil (suc k) = refl

drop-drop : (k m : ℕ) (s : Text) → drop k (drop m s) ≡ drop (m + k) s
drop-drop k zero s = ap (λ n. drop n s) (omega arith)
drop-drop k (suc m) [] = drop_nil k ∙ sym (drop_nil (suc m + k))
drop-drop k (suc m) (x ∷ s) = drop-drop k m s ∙ sym (ap (λ n. drop n (x ∷ s)) (suc_add m k))
  where
    suc_add : (a b : ℕ) → suc a + b ≡ suc (a + b)
    suc_add a b = omega arith

-- Before the place `i` stands the word so far, from its start on.
abbrev Ends : Text → Option ℕ → ℕ → Text → Type 0
Ends text none i word = word ≡ []
Ends text (some start) i word = (start ≤ i) × (slice text start i ≡ word) × (word ≢ [])

end_word_lem :
    (text : Text) (start : Option ℕ) (i : ℕ) (word : Text) (ws : List Text)
    (counts : List (Text × ℕ))
    → Ends text start i word
    → count_words (flush word ws) counts ≡ count_words ws (end_word text start i counts)
end_word_lem text none i word ws counts e = ground (arith, e)
end_word_lem text (some start) i [] ws counts (l, e, n) = ground (arith, n)
end_word_lem text (some start) i (c ∷ word) ws counts (l, e, n) = ground (arith, e)

slice_next :
    (text : Text) (start i c : ℕ) (rest : Text)
    → start ≤ i
    → drop i text ≡ c ∷ rest
    → slice text start (suc i) ≡ slice text start i ++ c ∷ []
slice_next text start i c rest l d =
    let place : start + (i - start) ≡ i = omega arith in
    let next : suc i - start ≡ suc (i - start) = omega arith in
    let here = drop-drop (i - start) start text ∙ ap (λ n. drop n text) place ∙ d in
    ap (λ n. take n (drop start text)) next
    ∙ (take-drop_next (i - start) (drop start text) c rest here).0

slice_self : (text : Text) (i : ℕ) → slice text i i ≡ []
slice_self text i =
    let none_left : i - i ≡ 0 = omega arith in ap (λ n. take n (drop i text)) none_left

append-ne : (word : Text) (c : ℕ) → word ++ c ∷ [] ≢ []
append-ne [] c h = ground (arith, h)
append-ne (x ∷ word) c h = ground (arith, h)

begin_word_lem :
    (text : Text) (start : Option ℕ) (i : ℕ) (word : Text) (c : ℕ) (rest : Text)
    → drop i text ≡ c ∷ rest
    → Ends text start i word
    → Ends text (begin_word start i) (suc i) (word ++ c ∷ [])
begin_word_lem text none i word c rest d e = (
  omega arith,
  slice_next text i i c rest (omega arith) d ∙ ap (λ w. w ++ c ∷ []) (slice_self text i ∙ sym e),
  append-ne word c,
)
begin_word_lem text (some start) i word c rest d (l, e, n) =
    (omega arith, slice_next text start i c rest l d ∙ ap (λ w. w ++ c ∷ []) e, append-ne word c)

scan_words :
    (text : Text) (i : ℕ) (rest : Text) (start : Option ℕ) (word : Text) (counts : List (Text × ℕ))
    → drop i text ≡ rest
    → Ends text start i word
    → scan text i rest start counts ≡ count_words (words_from word rest) counts
unfolding scan
scan_words text i [] start word counts d e = sym (end_word_lem text start i word [] counts e)
scan_words text i (c ∷ rest) start word counts d e =
    let (_, next) = take-drop_next i text c rest d in
    elim (Bool-cases (c == b' ')) [
      | inl t ↦ rw t (
          scan_words text (suc i) rest none [] (end_word text start i counts) next refl
          ∙ sym (end_word_lem text start i word (words_from [] rest) counts e))
      | inr t ↦ rw t (
          scan_words text (suc i) rest (begin_word start i) (word ++ c ∷ []) counts next
            (begin_word_lem text start i word c rest d e))
    ]

-- The scan counts the words between the spaces.
pub word_counts_lem : (text : Text) → word_counts text ≡ count_words (words text) []
unfolding word_counts
word_counts_lem text = scan_words text 0 text none [] [] refl refl
