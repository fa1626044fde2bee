-- ===== src/Iterator/Pull.antt =====
-- Chains of iterators as in `main`, and the element that Take asks for in vain.
use mathlib.Core.List
use go_examples.Base.{
  ℕ, zero, suc, ◌+◌, ◌≤◌, ◌<◌, ◌≡◌, refl, ap, ◌∙◌, Bool, true, false, List, [], ◌∷◌, ◌++◌, Option,
  none, some, arith, length,
}
use go_examples.Base as Base
use go_examples.Iterator.{
  Seq, filter_body, filter, map, take_body, drop_count, take, next_int, naturals, collect,
}
use go_examples.Iterator.Meaning.{
  Begins, keep, range, filter-Begins, map-Begins, take-Produces, collect-Produces, naturals-Begins,
  naturals-none, drive-take_body_goes, drive-filter_body,
}

-- Collecting the first `n` mapped elements that pass the test gives what the lists give, for every
-- iterator that yields more than `n` of them: as `main` does over Naturals.
pub collect_chain :
    {V W : Type 0} (seq : Seq V) (p : V → Bool) (f : V → W) (n : ℕ) (l : List V)
    → Begins seq l
    → n < length (List.map f (keep p l))
    → collect (take (map (filter seq p) f) n) ≡ some (Base.take n (List.map f (keep p l)))
collect_chain seq p f n l h e =
    collect-Produces (take (map (filter seq p) f) n) (Base.take n (List.map f (keep p l))) (
      take-Produces (map (filter seq p) f) n (List.map f (keep p l))
        (map-Begins (filter seq p) f (keep p l) (filter-Begins seq p l h)) e)

take-range : (n i m : ℕ) → n ≤ m → Base.take n (range i m) ≡ range i n
take-range zero i m h = refl
take-range (suc n) i zero h = absurd (omega arith)
take-range (suc n) i (suc m) h = ap (λ l. i ∷ l) (take-range n (next_int i) m (omega arith))

length-range : (i n : ℕ) → length (range i n) ≡ n
length-range i zero = refl
length-range i (suc n) = ap suc (length-range (next_int i) n)

-- The first `n` naturals from `i` on; fuel for one more number is enough.
pub collect-naturals :
    (i n fuel : ℕ) → n < fuel → collect (take (naturals fuel i) n) ≡ some (range i n)
collect-naturals i n fuel h =
    collect-Produces (take (naturals fuel i) n) (Base.take n (range i fuel)) (
      take-Produces (naturals fuel i) n (range i fuel) (naturals-Begins fuel i)
        (omega (arith, length-range i fuel)))
    ∙ ap some (take-range n i fuel (omega arith))

-- Take looks at one element more than it yields before it stops: so over the naturals it returns, with the first `n`
-- numbers that pass the test, once `n + 1` of the numbers looked at pass it, and not before, also when all `n` have
-- been found.
pub take_pulls_one_more :
    (p : ℕ → Bool) (i n fuel : ℕ)
    → (n < length (keep p (range i fuel))
        → collect (take (filter (naturals fuel i) p) n)
          ≡ some (Base.take n (keep p (range i fuel))))
      × (length (keep p (range i fuel)) ≤ n → collect (take (filter (naturals fuel i) p) n) ≡ none)
unfolding collect take filter
take_pulls_one_more p i n fuel = (
  λ more.
      collect-Produces (take (filter (naturals fuel i) p) n) (Base.take n (keep p (range i fuel))) (
        take-Produces (filter (naturals fuel i) p) n (keep p (range i fuel))
          (filter-Begins (naturals fuel i) p (range i fuel) (naturals-Begins fuel i)) more),
  λ few. ap drop_count (
      naturals-none fuel i (filter_body p (take_body n λ v l. (l ++ v ∷ [], true))) (0, [])
        (ap (λ r. r.1)
            (drive-filter_body p (range i fuel) (take_body n λ v l. (l ++ v ∷ [], true)) (0, []))
          ∙ drive-take_body_goes (keep p (range i fuel)) n 0 n (λ v l. (l ++ v ∷ [], true)) []
              (λ v t. refl) (omega arith) few)),
)
