-- ===== src/SyncPrimitives/Maps.antt =====
-- What the sync.Map has when the goroutines are done, in whatever order they store.
use go_examples.Base.{
  ℕ, ◌*◌, ◌<◌, ◌≡◌, refl, List, [], ◌∷◌, Option, none, some, count, arith, ◌==◌, ==_iff, Bool-cases,
  inl, inr,
}
use go_examples.SyncPrimitives.{store_square, sync_map_example}

untouched :
    (k : ℕ) (order : List ℕ) (m : ℕ → Option ℕ)
    → count k order ≡ 0
    → sync_map_example order m k ≡ m k
unfolding sync_map_example
untouched k [] m h = refl
untouched k (i ∷ order) m h =
    ground (arith, untouched k order (store_square i m), h, ==_iff k i, ==_iff i k)

holds_square :
    (k : ℕ) (order : List ℕ) (m : ℕ → Option ℕ)
    → m k ≡ some (k * k)
    → sync_map_example order m k ≡ some (k * k)
unfolding sync_map_example
holds_square k [] m h = h
holds_square k (i ∷ order) m h =
    holds_square k order (store_square i m) (ground (arith, h, ==_iff k i))

stored :
    (k : ℕ) (order : List ℕ) (m : ℕ → Option ℕ)
    → 0 < count k order
    → sync_map_example order m k ≡ some (k * k)
unfolding sync_map_example
stored k [] m h = ground (arith, h)
stored k (i ∷ order) m h = elim (Bool-cases (i == k)) [
  | inl e ↦ holds_square k order (store_square i m) (ground (arith, e))
  | inr e ↦ stored k order (store_square i m) (ground (arith, h, e))
]

-- The map has the square of each goroutine's number under its key, and nothing else.
pub sync_map_lem :
    (k : ℕ) (order : List ℕ)
    → (count k order ≡ 0 → sync_map_example order (λ i. none) k ≡ none)
      × (0 < count k order → sync_map_example order (λ i. none) k ≡ some (k * k))
sync_map_lem k order = (untouched k order (λ i. none), stored k order (λ i. none))
