-- ===== src/Iterator/Tests.antt =====
-- The chains of `main`, and a Take that does not return.
use go_examples.Base.{ℕ, ◌*◌, ◌%◌, ◌≤◌, ◌<◌, ◌≡◌, Bool, [], ◌∷◌, none, some, arith, ◌==◌}
use go_examples.Iterator.{filter, map, take, naturals, collect}
use go_examples.Iterator.Meaning.{range, naturals-Begins}
use go_examples.Iterator.Pull.{collect_chain, collect-naturals, take_pulls_one_more}

abbrev is_odd : ℕ → Bool
is_odd n = n % 2 == 1

-- The squares of the first four odd numbers.
collect_chain_instance :
    collect (take (map (filter (naturals 10 1) is_odd) (λ n. n * n)) 4)
    ≡ some (1 ∷ 9 ∷ 25 ∷ 49 ∷ [])
collect_chain_instance =
    collect_chain (naturals 10 1) is_odd (λ n. n * n) 4 (range 1 10) (naturals-Begins 10 1)
      (omega arith)

five_naturals : collect (take (naturals 6 10) 5) ≡ some (10 ∷ 11 ∷ 12 ∷ 13 ∷ 14 ∷ [])
five_naturals = collect-naturals 10 5 6 (omega arith)

-- One number of three passes: taking one is not over.
take_pulls_one_more_example :
    (1 < 1 → collect (take (filter (naturals 3 0) (λ n. n == 0)) 1) ≡ some (0 ∷ []))
    × (1 ≤ 1 → collect (take (filter (naturals 3 0) (λ n. n == 0)) 1) ≡ none)
take_pulls_one_more_example = take_pulls_one_more (λ n. n == 0) 0 1 3
