-- ===== src/JobQueue/Server.antt =====
-- The Redis server that examples/redis talks to, which is not part of the repository: an interface with the
-- documented effect of INCR, RPUSH and the pop of BLPOP on the keys of one engine. Values are the decimal texts of
-- numbers, and are written as the numbers.
use go_examples.Base.{ℕ, ◌+◌, ◌≡◌, ◌≢◌, Option, none, some, List, [], ◌∷◌, ◌++◌}

-- `queue:task:E:counter`, `queue:task:E` and `queue:processed:E:ID`
pub data Key : Type 0 where
  counter_key tasks : Key
  results_of : ℕ → Key

-- `counter` is the number that INCR counts from, and `entries` is LRANGE over a whole list.
pub record Queues : Type 1 where
  pub Store : Type 0
  pub counter : Key → Store → ℕ
  pub entries : Key → Store → List ℕ
  pub incr : Key → Store → Store × ℕ
  pub rpush : Key → ℕ → Store → Store
  -- The pop of BLPOP; `none` while the list is empty.
  pub lpop : Key → Store → Store × Option ℕ
  pub incr-reply : (k : Key) (s : Store) → (incr k s).1 ≡ counter k s + 1
  pub counter-incr : (k : Key) (s : Store) → counter k (incr k s).0 ≡ counter k s + 1
  pub entries-incr : (k j : Key) (s : Store) → k ≢ j → entries j (incr k s).0 ≡ entries j s
  pub entries-rpush :
      (k : Key) (v : ℕ) (s : Store) → entries k (rpush k v s) ≡ entries k s ++ v ∷ []
  pub entries-rpush_other :
      (k j : Key) (v : ℕ) (s : Store) → k ≢ j → entries j (rpush k v s) ≡ entries j s
  pub counter-rpush :
      (k j : Key) (v : ℕ) (s : Store) → k ≢ j → counter j (rpush k v s) ≡ counter j s
  pub lpop-cons :
      (k : Key) (s : Store) (v : ℕ) (vs : List ℕ)
      → entries k s ≡ v ∷ vs
      → ((lpop k s).1 ≡ some v) × (entries k (lpop k s).0 ≡ vs)
  pub lpop-nil : (k : Key) (s : Store) → entries k s ≡ [] → (lpop k s).1 ≡ none
  pub entries-lpop_nil : (k : Key) (s : Store) → entries k s ≡ [] → entries k (lpop k s).0 ≡ []
  pub entries-lpop : (k j : Key) (s : Store) → k ≢ j → entries j (lpop k s).0 ≡ entries j s
  pub counter-lpop : (k j : Key) (s : Store) → counter j (lpop k s).0 ≡ counter j s
