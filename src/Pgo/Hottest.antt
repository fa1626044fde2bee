-- ===== src/Pgo/Hottest.antt =====
-- What hottestWord returns.
use mathlib.Core.Path.{subst}
use go_examples.Base.{
  ℕ, zero, suc, ◌≤◌, ◌<◌, ◌≡◌, ◌↔◌, refl, sym, ap, ◌∙◌, ◌⊎◌, inl, inr, false, List, [], ◌∷◌, ◌++◌,
  arith,
}
use go_examples.Pgo.{Text, word_counts, beats, text_lt, best_from, hottest_word}
use go_examples.Pgo.Words.{words_from, words, word_counts_lem, count_words}
use go_examples.Pgo.Order.{In, best-In, best_unbeaten, best_of_same}
use go_examples.Pgo.Counts.{
  occurrences, count_of, count_of-count_words, count_words-Distinct, In-count_of, count_of-In,
}

no_empty : (word rest : Text) → occurrences [] (words_from word rest) ≡ 0
no_empty [] [] = refl
no_empty (c ∷ word) [] = refl
no_empty [] (c ∷ rest) = ground (arith, no_empty [] rest, no_empty (c ∷ []) rest)
no_empty (d ∷ word) (c ∷ rest) =
    ground (arith, no_empty [] rest, no_empty ((d ∷ word) ++ c ∷ []) rest)

zero_or_more : (n : ℕ) → (n ≡ 0) ⊎ (0 < n)
zero_or_more zero = inl refl
zero_or_more (suc n) = inr (omega arith)

module _ (text : Text) where
  entries : List (Text × ℕ)
  entries = count_words (words text) []

  In-entries : (w : Text) (n : ℕ) → In (w, n) entries → n ≡ occurrences w (words text)
  unfolding entries
  In-entries w n h = omega (
    arith,
    In-count_of w n entries (count_words-Distinct (words text) [] tt) h,
    count_of-count_words w (words text) [],
  )

  entries-In :
      (w : Text) → 0 < occurrences w (words text) → In (w, occurrences w (words text)) entries
  unfolding entries
  entries-In w h =
      let e : count_of w entries ≡ occurrences w (words text) =
        omega (arith, count_of-count_words w (words text) []) in
      count_of-In w (occurrences w (words text)) entries h e

  -- The best entry, whatever the order.
  best : Text × ℕ
  unfolding entries
  best = best_from ([], 0) entries

  best_count : best.1 ≡ occurrences best.0 (words text)
  unfolding best
  best_count = elim (best-In ([], 0) entries) [
    | inl p ↦ ground (arith, p, no_empty [] text)
    | inr h ↦ In-entries best.0 best.1 h
  ]

  best_most :
      (v : Text)
      → 0 < occurrences v (words text)
      → beats (v, occurrences v (words text)) best ≡ false
  unfolding best
  best_most v h = best_unbeaten ([], 0) entries (v, occurrences v (words text)) (entries-In v h)

  -- No word beats the given word and count.
  abbrev Hottest : Text × ℕ → Type 0
  Hottest (word, count) =
      (v : Text)
      → (occurrences v (words text) ≤ count)
        × (0 < occurrences v (words text)
            → occurrences v (words text) ≡ count
            → text_lt v word ≡ false)

  best-Hottest : Hottest best
  best-Hottest v = elim (zero_or_more (occurrences v (words text))) [
    | inl z ↦ (omega (arith, z), λ l. ground (arith, z, l))
    | inr l ↦ ground (arith, best_most v l)
  ]

-- For every iteration order of the map, hottestWord returns the same word and count: the count is how
-- often the word stands between the spaces of the text, no word stands there more often, and of
-- those that stand there as often the word is the first in the alphabet.
pub hottest_word_lem :
    (shuffle : List (Text × ℕ) → List (Text × ℕ)) (text : Text)
    → ((l : List (Text × ℕ)) (e : Text × ℕ) → In e (shuffle l) ↔ In e l)
    → let (word, count) = hottest_word shuffle text in
      (hottest_word shuffle text ≡ hottest_word (λ l. l) text)
      × (count ≡ occurrences word (words text))
      × ((v : Text)
          → (occurrences v (words text) ≤ count)
            × (0 < occurrences v (words text)
                → occurrences v (words text) ≡ count
                → text_lt v word ≡ false))
unfolding hottest_word best entries
hottest_word_lem shuffle text keeps =
    let same : hottest_word shuffle text ≡ best text =
      best_of_same ([], 0) (shuffle (word_counts text)) (word_counts text)
        (λ e. (keeps (word_counts text) e).0) (λ e. (keeps (word_counts text) e).1)
      ∙ ap (best_from ([], 0)) (word_counts_lem text) in
    (
      same ∙ sym (ap (best_from ([], 0)) (word_counts_lem text)),
      ap (λ x. x.1) same
          ∙ best_count text
          ∙ sym (ap (λ (x : Text × ℕ). occurrences x.0 (words text)) same),
      subst (Hottest text) (sym same) (best-Hottest text),
    )
