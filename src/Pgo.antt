-- ===== src/Pgo.antt =====
-- examples/pgo/main.go: the workload. A text is the list of its bytes. The iteration order of the map
-- of counts is not defined in Go: hottest_word takes the entries in any order, given by `shuffle`.
pub mod Words
pub mod Order
pub mod Counts
pub mod Hottest
pub mod Corpus
mod Tests
use Prim.Native.String.{String}
use Prim.Native.Char.{code}
use text.Mathlib.Text.{◌==◌ as str_eq}
use go_examples.Base.{
  ℕ, zero, suc, ◌+◌, ◌-◌, ◌*◌, ◌%◌, ◌^◌, Bool, true, false, not, ◌&&◌, ◌||◌, List, [], ◌∷◌, ◌++◌,
  Option, none, some, ltb, ◌==◌, if◌then◌else◌, length, take,
}

abbrev pub Text : Type 0
Text = List ℕ

abbrev pub codes : String → Text
codes String.[] = []
codes (String.◌∷◌ c s) = code c ∷ codes s

-- `pgoSetting`: the build settings, if there are any.
unfoldable pub pgo_setting : Option (List (String × String)) → String
pgo_setting none = "unknown"
pgo_setting (some []) = "off"
pgo_setting (some ((k, v) ∷ rest)) = if str_eq k "-pgo" then v else pgo_setting (some rest)

abbrev pub vocabulary : List Text
vocabulary =
    codes "context"
    ∷ codes "channel"
    ∷ codes "goroutine"
    ∷ codes "interface"
    ∷ codes "slice"
    ∷ codes "map"
    ∷ codes "struct"
    ∷ codes "error"
    ∷ codes "defer"
    ∷ codes "select"
    ∷ codes "mutex"
    ∷ codes "atomic"
    ∷ []

-- `state*1664525 + 1013904223` on uint32
unfoldable pub next_state : ℕ → ℕ
next_state state = (state * 1664525 + 1013904223) % 2 ^ 32

-- An index out of range panics; see Words for why it is in range.
unfoldable pub word_at : List Text → ℕ → Option Text
word_at [] i = none
word_at (w ∷ ws) zero = some w
word_at (w ∷ ws) (suc i) = word_at ws i

-- The loop of `corpus`, by its rounds, and the text it writes. `none` is a panic.
unfoldable pub corpus_from : ℕ → ℕ → Option Text
unfolding next_state word_at
corpus_from zero state = some []
corpus_from (suc n) state =
    let state' = next_state state in
    let rest = corpus_from n state' in
    elim (word_at vocabulary (state' % length vocabulary)) [
      | none ↦ none
      | some w ↦ elim rest [ none ↦ none | some text ↦ some (w ++ b' ' ∷ text) ]
    ]

abbrev pub same_text : Text → Text → Bool
same_text [] [] = true
same_text (a ∷ s) (b ∷ t) = if a == b then same_text s t else false
same_text _ _ = false

-- `word < bestWord`
abbrev pub text_lt : Text → Text → Bool
text_lt [] [] = false
text_lt [] (b ∷ t) = true
text_lt (a ∷ s) [] = false
text_lt (a ∷ s) (b ∷ t) = if ltb a b then true else if a == b then text_lt s t else false

-- `counts[word]++`
unfoldable pub increment : Text → List (Text × ℕ) → List (Text × ℕ)
increment w [] = (w, 1) ∷ []
increment w ((v, n) ∷ rest) = if same_text w v then (v, n + 1) ∷ rest else (v, n) ∷ increment w rest

abbrev pub drop : ℕ → Text → Text
drop zero s = s
drop (suc n) [] = []
drop (suc n) (c ∷ s) = drop n s

-- `text[start:i]`
abbrev pub slice : Text → ℕ → ℕ → Text
slice text start i = take (i - start) (drop start text)

-- The word that ends at `i`, if one has begun.
abbrev pub end_word : Text → Option ℕ → ℕ → List (Text × ℕ) → List (Text × ℕ)
end_word text none i counts = counts
end_word text (some start) i counts = increment (slice text start i) counts

abbrev pub begin_word : Option ℕ → ℕ → Option ℕ
begin_word none i = some i
begin_word (some start) i = some start

-- The scan of `hottestWord` from the place `i` on, where `rest` begins.
unfoldable pub scan : Text → ℕ → Text → Option ℕ → List (Text × ℕ) → List (Text × ℕ)
unfolding increment
scan text i [] start counts = end_word text start i counts
scan text i (c ∷ rest) start counts =
    let space = scan text (suc i) rest none (end_word text start i counts) in
    let other = scan text (suc i) rest (begin_word start i) counts in
    if c == b' ' then space else other

unfoldable pub word_counts : Text → List (Text × ℕ)
unfolding scan
word_counts text = scan text 0 text none []

-- `count > bestCount || (count == bestCount && word < bestWord)`
abbrev pub beats : Text × ℕ → Text × ℕ → Bool
beats (word, count) (best_word, best_count) =
    if ltb best_count count
    then true
    else if count == best_count
    then text_lt word best_word
    else false

unfoldable pub best_from : Text × ℕ → List (Text × ℕ) → Text × ℕ
best_from best [] = best
best_from best (e ∷ rest) = best_from (if beats e best then e else best) rest

unfoldable pub hottest_word : (List (Text × ℕ) → List (Text × ℕ)) → Text → Text × ℕ
unfolding word_counts best_from
hottest_word shuffle text = best_from ([], 0) (shuffle (word_counts text))
