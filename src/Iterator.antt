-- ===== src/Iterator.antt =====
-- examples/iterator/main.go. An `iter.Seq[V]` is a function of its consumer: `yield` acts on a
-- state of the consumer's and says whether to go on. `for v := range seq { body }` is a call of
-- `seq` with the body as the consumer, which says false where the body returns. `Naturals` never
-- ends by itself, so it takes fuel; `none` means that the fuel ran out, the code still running.
pub mod Meaning
pub mod Pull
mod Tests
use go_examples.Base.{
  ℕ, zero, suc, ◌+◌, ◌%◌, ◌^◌, Bool, true, false, List, [], ◌∷◌, ◌++◌, Option, none, some, leb,
  if◌then◌else◌,
}

abbrev pub Consumer : Type 0 → Type 0 → Type 0
Consumer V S = V → S → S × Bool

abbrev pub Seq : Type 0 → Type 1
Seq V = (S : Type 0) → Consumer V S → S → Option S

abbrev filter_body : {V S : Type 0} → (V → Bool) → Consumer V S → Consumer V S
filter_body pred yield v s = if pred v then yield v s else (s, true)

unfoldable pub filter : {V : Type 0} → Seq V → (V → Bool) → Seq V
filter seq pred S yield s = seq S (filter_body pred yield) s

unfoldable pub map : {V W : Type 0} → Seq V → (V → W) → Seq W
map seq f S yield s = seq S (λ v t. yield (f v) t) s

-- The loop's variable `count` beside the consumer's state.
abbrev take_body : {V S : Type 0} → ℕ → Consumer V S → Consumer V (ℕ × S)
take_body n yield v (count, s) =
    if leb n count
    then ((count, s), false)
    else let (s', more) = yield v s in
      if more then ((count + 1, s'), true) else ((count, s'), false)

abbrev drop_count : {S : Type 0} → Option (ℕ × S) → Option S
drop_count none = none
drop_count (some (count, s)) = some s

unfoldable pub take : {V : Type 0} → Seq V → ℕ → Seq V
take seq n S yield s = drop_count (seq (ℕ × S) (take_body n yield) (0, s))

-- `i++` on an int, which is given by its 64 bits as a number.
abbrev pub next_int : ℕ → ℕ
next_int i = (i + 1) % 2 ^ 64

unfoldable pub naturals : ℕ → ℕ → Seq ℕ
naturals zero i S yield s = none
naturals (suc fuel) i S yield s =
    let rest = λ (t : S). naturals fuel (next_int i) S yield t in
    let (s', more) = yield i s in if more then rest s' else some s'

-- `slices.Collect`
unfoldable pub collect : {V : Type 0} → Seq V → Option (List V)
collect {V} seq = seq (List V) (λ v l. (l ++ v ∷ [], true)) []
