-- ===== src/Kafka/Ordering.antt =====
-- The order of the messages of a key, from the producer to the consumer group.
use Prim.Native.String.{String}
use text.Mathlib.TextEquality.{eq_iff}
use go_examples.Base.{
  ℕ, ◌≡◌, refl, ap, ◌∙◌, false, List, [], ◌∷◌, map, Option, Result, ok, arith, if◌then◌else◌, ◌==◌,
  ==_iff,
}
use go_examples.Kafka.{Message, KafkaError, consume_group}
use go_examples.Kafka.Consuming.{values_of, fetched, consume_group-Recorded}
use go_examples.Kafka.Demo.{balance}

-- The messages of a partition, in their order.
abbrev pub on_partition : ℕ → List Message → List Message
on_partition p [] = []
on_partition p (m ∷ ms) = if m.partition == p then m ∷ on_partition p ms else on_partition p ms

-- A key of which no message lies elsewhere has all its values on its own partition.
own_partition :
    (h : ℕ) (k : String) (ms : List Message)
    → ((p : ℕ) → (p == h) ≡ false → values_of k (on_partition p ms) ≡ [])
    → values_of k ms ≡ values_of k (on_partition h ms)
own_partition h k [] n = refl
own_partition h k (m ∷ ms) n =
    let i = own_partition h k ms (λ p e. ground (arith, n p e)) in
    ground (arith, i, n m.partition, ==_iff m.partition h, ==_iff m.partition m.partition)

placed_values :
    (hash : String → ℕ) (k : String) (p : ℕ) (sent : List (String × String))
    → values_of k (on_partition p (map (balance hash) sent))
      ≡ (if p == hash k then values_of k (map (balance hash) sent) else [])
placed_values hash k p [] = ground arith
placed_values hash k p ((key, value) ∷ sent) =
    ground
      (arith, placed_values hash k p sent, eq_iff k key, ==_iff p (hash k), ==_iff (hash key) p)

-- When every partition has delivered what was sent to it, in its order, and consumeGroup returns nil, it has
-- recorded under each key the values sent with that key, in the order in which they were sent, however
-- the partitions interleaved.
pub keys_in_order :
    (hash : String → ℕ) (sent : List (String × String)) (fetches : ℕ → Result KafkaError Message)
    (commits : ℕ → Option KafkaError) (expect : ℕ)
    → ((p : ℕ)
        → on_partition p (fetched fetches commits expect 0)
          ≡ on_partition p (map (balance hash) sent))
    → (consume_group fetches commits expect).1 ≡ ok tt
    → (k : String)
    → (consume_group fetches commits expect).0.by_key k ≡ values_of k (map (balance hash) sent)
keys_in_order hash sent fetches commits expect d h k =
    let ms = fetched fetches commits expect 0 in
    let r = consume_group-Recorded fetches commits expect h in
    let at : (p : ℕ)
        → values_of k (on_partition p ms)
          ≡ (if p == hash k then values_of k (map (balance hash) sent) else []) =
      λ p. ap (values_of k) (d p) ∙ placed_values hash k p sent in
    let own = own_partition (hash k) k ms (λ p e. ground (arith, at p, e)) in
    r.values k ∙ own ∙ ground (arith, at (hash k), ==_iff (hash k) (hash k))
