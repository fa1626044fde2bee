-- ===== src/Pgo/Tests.antt =====
-- A short text, read with its entries in two orders.
use mathlib.Core.List.{reverse}
use go_examples.Base.{ℕ, ◌≤◌, ◌<◌, ◌≡◌, refl, false, List, [], ◌∷◌, some, length}
use go_examples.Pgo.{
  Text, corpus_from, codes, word_counts, increment, scan, best_from, hottest_word, text_lt,
  pgo_setting, next_state,
}
use go_examples.Pgo.Words.{words}
use go_examples.Pgo.Counts.{occurrences}
use go_examples.Pgo.Corpus.{picks, corpus_words}
use go_examples.Pgo.Hottest.{hottest_word_lem}

abbrev text : Text
text = codes " map error map  error"

abbrev as_is : List (Text × ℕ) → List (Text × ℕ)
as_is l = l

counted : hottest_word as_is text ≡ (codes "error", 2)
unfolding hottest_word word_counts scan increment best_from
counted = refl

reversed : hottest_word reverse text ≡ (codes "error", 2)
unfolding hottest_word word_counts scan increment best_from
reversed = refl

hottest_word_lem_example :
    let (word, count) = hottest_word as_is text in
    (hottest_word as_is text ≡ hottest_word (λ l. l) text)
    × (count ≡ occurrences word (words text))
    × ((v : Text)
        → (occurrences v (words text) ≤ count)
          × (0 < occurrences v (words text)
              → occurrences v (words text) ≡ count
              → text_lt v word ≡ false))
hottest_word_lem_example = hottest_word_lem as_is text (λ l e. ((λ h. h), (λ h. h)))

built_with : pgo_setting (some (("-trimpath", "true") ∷ ("-pgo", "auto") ∷ [])) ≡ "auto"
unfolding pgo_setting
built_with = refl

wraps : next_state 4294967295 ≡ 1012239698
unfolding next_state
wraps = refl

corpus_words_instance :
    (text : Text) × (corpus_from 3 42 ≡ some text)
    × (words text ≡ picks 3 42)
    × (length (picks 3 42) ≡ 3)
corpus_words_instance = corpus_words 3 42
