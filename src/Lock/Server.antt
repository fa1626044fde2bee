-- ===== src/Lock/Server.antt =====
-- The Redis server that examples/distributed-lock talks to, which is not part of the repository:
-- an interface with the documented effect of the commands that lock.go sends. Server times are
-- milliseconds. `set_nx` takes the client's duration in nanoseconds, as SetNX does.
use Prim.Native.String.{String}
use go_examples.Base.{
  ℕ, ◌+◌, ◌/◌, ◌≤◌, ◌≡◌, ◌≢◌, Bool, true, false, Option, none, some, ltb, if◌then◌else◌, is_some,
}

-- The keys `key` and `key + ":fence"` of a lock.
pub data Key : Type 0 where
  plain fence_of : String → Key

abbrev pub millis : ℕ → ℕ
millis d = d / 1000000

-- `GET` is a view of the store at a time, `counter` the number that `INCR` counts from.
pub record Redis : Type 1 where
  pub Store : Type 0
  pub get : ℕ → Key → Store → Option String
  pub counter : Key → Store → ℕ
  pub set_nx : ℕ → Key → String → ℕ → Store → Store × Bool
  pub del : ℕ → Key → Store → Store × ℕ
  pub pexpire : ℕ → Key → ℕ → Store → Store × ℕ
  pub incr : Key → Store → Store × ℕ
  -- A value that is there was there before, since it was set.
  pub get-mono :
      (t u : ℕ) (k : Key) (s : Store) (v : String) → t ≤ u → get u k s ≡ some v → get t k s ≡ some v
  -- SET NX writes only where nothing is stored.
  pub set_nx-reply :
      (t : ℕ) (k : Key) (v : String) (d : ℕ) (s : Store)
      → (set_nx t k v d s).1 ≡ (if is_some (get t k s) then false else true)
  pub set_nx-held :
      (t : ℕ) (k : Key) (v : String) (d : ℕ) (s : Store)
      → (set_nx t k v d s).1 ≡ false
      → (set_nx t k v d s).0 ≡ s
  -- The value written lasts for the duration, which go-redis cuts to whole milliseconds.
  pub get-set_nx :
      (t u : ℕ) (k : Key) (v : String) (d : ℕ) (s : Store)
      → 1000000 ≤ d
      → t ≤ u
      → (set_nx t k v d s).1 ≡ true
      → get u k (set_nx t k v d s).0 ≡ (if ltb u (t + millis d) then some v else none)
  pub del-reply :
      (t : ℕ) (k : Key) (s : Store) → (del t k s).1 ≡ (if is_some (get t k s) then 1 else 0)
  pub get-del : (t u : ℕ) (k : Key) (s : Store) → get u k (del t k s).0 ≡ none
  pub pexpire-reply :
      (t : ℕ) (k : Key) (ms : ℕ) (s : Store)
      → (pexpire t k ms s).1 ≡ (if is_some (get t k s) then 1 else 0)
  pub get-pexpire :
      (t u : ℕ) (k : Key) (ms : ℕ) (s : Store) (v : String)
      → t ≤ u
      → get t k s ≡ some v
      → get u k (pexpire t k ms s).0 ≡ (if ltb u (t + ms) then some v else none)
  -- INCR counts one up.
  pub incr-reply : (k : Key) (s : Store) → (incr k s).1 ≡ counter k s + 1
  pub counter-incr : (k : Key) (s : Store) → counter k (incr k s).0 ≡ counter k s + 1
  -- A command touches its own key.
  pub get-incr : (t : ℕ) (k j : Key) (s : Store) → k ≢ j → get t j (incr k s).0 ≡ get t j s
  pub counter-set_nx :
      (t : ℕ) (k j : Key) (v : String) (d : ℕ) (s : Store)
      → k ≢ j
      → counter j (set_nx t k v d s).0 ≡ counter j s
  pub counter-del : (t : ℕ) (k j : Key) (s : Store) → k ≢ j → counter j (del t k s).0 ≡ counter j s
  pub counter-pexpire :
      (t : ℕ) (k j : Key) (ms : ℕ) (s : Store)
      → k ≢ j
      → counter j (pexpire t k ms s).0 ≡ counter j s
