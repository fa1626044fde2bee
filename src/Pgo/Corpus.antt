-- ===== src/Pgo/Corpus.antt =====
-- The synthetic text splits into the words that were picked.
use mathlib.Core.List.{append-nil, append_assoc}
use go_examples.Base.{
  ℕ, zero, suc, ◌%◌, ◌<◌, ◌≡◌, refl, sym, ap, ◌∙◌, Bool, true, false, List, [], ◌∷◌, ◌++◌, none,
  some, arith, ◌==◌, if◌then◌else◌, All, length,
}
use go_examples.Pgo.{Text, vocabulary, next_state, word_at, corpus_from}
use go_examples.Pgo.Words.{flush, words_from, words}

abbrev no_space : Text → Bool
no_space [] = true
no_space (c ∷ w) = if c == b' ' then false else no_space w

-- No space, and not empty.
abbrev is_word : Text → Bool
is_word [] = false
is_word (c ∷ w) = no_space (c ∷ w)

words_from-append :
    (word w rest : Text)
    → no_space w ≡ true
    → words_from word (w ++ b' ' ∷ rest) ≡ flush (word ++ w) (words_from [] rest)
words_from-append word [] rest h = ap (λ x. flush x (words_from [] rest)) (sym (append-nil word))
words_from-append word (c ∷ w) rest h =
    ground (arith, h, words_from-append (word ++ c ∷ []) w rest, append_assoc word (c ∷ []) w)

flush_word : (w : Text) (ws : List Text) → is_word w ≡ true → flush w ws ≡ w ∷ ws
flush_word [] ws h = ground (arith, h)
flush_word (c ∷ w) ws h = refl

word_no_space : (w : Text) → is_word w ≡ true → no_space w ≡ true
word_no_space [] h = refl
word_no_space (c ∷ w) h = h

word_at_lem :
    (ws : List Text) (i : ℕ)
    → All (λ w. is_word w ≡ true) ws
    → i < length ws
    → (w : Text) × (word_at ws i ≡ some w) × (is_word w ≡ true)
unfolding word_at
word_at_lem [] i a l = ground (arith, l)
word_at_lem (w ∷ ws) zero (a, as') l = (w, refl, a)
word_at_lem (w ∷ ws) (suc i) (a, as') l = word_at_lem ws i as' (omega arith)

vocabulary_words : All (λ w. is_word w ≡ true) vocabulary
vocabulary_words = ground arith

-- The words that the rounds pick.
abbrev pub picks : ℕ → ℕ → List Text
picks zero state = []
picks (suc n) state =
    let state' = next_state state in
    elim (word_at vocabulary (state' % length vocabulary)) [
      | none ↦ []
      | some w ↦ w ∷ picks n state'
    ]

-- The index never leaves the vocabulary, so `corpus` does not panic; its text splits at the spaces into
-- the words that the generator picked, one for each round.
pub corpus_words :
    (n state : ℕ)
    → (text : Text) × (corpus_from n state ≡ some text)
      × (words text ≡ picks n state)
      × (length (picks n state) ≡ n)
unfolding corpus_from
corpus_words zero state = ([], refl, refl, refl)
corpus_words (suc n) state =
    let state' = next_state state in
    let (w, e, h) = word_at_lem vocabulary (state' % 12) vocabulary_words (omega arith) in
    let (text, c, q, l) = corpus_words n state' in
    (
      w ++ b' ' ∷ text,
      ground (arith, e, c),
      words_from-append [] w text (word_no_space w h)
          ∙ flush_word w (words_from [] text) h
          ∙ ground (arith, e, q),
      ground (arith, e, l),
    )
