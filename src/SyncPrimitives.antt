-- ===== src/SyncPrimitives.antt =====
-- examples/sync-primitives/main.go: getService with its sync.Once, and the atomic counter and state. Once.Do is that of
-- package sync: a flag, and a mutex under which the flag is tested again. A move is one access of a goroutine to what
-- they share.
pub mod Singleton
pub mod Maps
mod Tests
use go_examples.Base.{
  ℕ, zero, suc, ◌+◌, ◌*◌, ◌<◌, ◌==◌, ◌≡◌, Bool, true, false, List, [], ◌∷◌, Option, none, some,
  if◌then◌else◌,
}

-- The flag and the mutex of `once`, `serviceInstance`, and how many services were made. A service is
-- the number of its making.
pub record Shared : Type 0 where
  pub done : Bool
  pub locked : Bool
  pub instance : Option ℕ
  pub made : ℕ

-- Where a goroutine is in `getService`: before Do, with the mutex, with the mutex after the function, before
-- Unlock, after Do, and returned.
pub data Pc : Type 0 where
  calling entered initialised unlocking after_do : Pc
  got : Option ℕ → Pc

pub data Move : Shared → Pc → Shared → Pc → Type 0 where
  see_flag : {m : Shared} → m.done ≡ true → Move m calling m after_do
  lock : {m : Shared} → m.locked ≡ false → Move m calling (record m { locked = true }) entered
  make :
      {m : Shared}
      → m.done ≡ false
      → Move m entered (record m { instance = some m.made; made = m.made + 1 }) initialised
  skip : {m : Shared} → m.done ≡ true → Move m entered m unlocking
  store : {m : Shared} → Move m initialised (record m { done = true }) unlocking
  unlock : {m : Shared} → Move m unlocking (record m { locked = false }) after_do
  read : {m : Shared} → Move m after_do m (got m.instance)

pub record System : Type 0 where
  pub mem : Shared
  pub pc : ℕ → Pc

abbrev pub update : (ℕ → Pc) → ℕ → Pc → ℕ → Pc
update pc i p j = if j == i then p else pc j

pub data Step (n : ℕ) : System → System → Type 0 where
  pick :
      {s : System} {m : Shared} {p : Pc} (i : ℕ)
      → i < n
      → Move s.mem (s.pc i) m p
      → Step n s (record { mem = m; pc = update s.pc i p })

abbrev pub init : System
init = record {
  mem = record { done = false; locked = false; instance = none; made = 0 };
  pc = λ i. calling;
}

pub data Reach (n : ℕ) : System → Type 0 where
  start : Reach n init
  later : {s t : System} → Reach n s → Step n s t → Reach n t

-- CompareAndSwap, with the value and the reply.
unfoldable pub compare_and_swap : ℕ → ℕ → ℕ → ℕ × Bool
compare_and_swap old new value = if value == old then (new, true) else (value, false)

-- The goroutines of `atomicExample`: each adds once; `none` if it has already.
pub record Counting : Type 0 where
  pub counter : ℕ
  pub added : ℕ → Bool

unfoldable pub add_one : ℕ → Counting → Option Counting
add_one i c =
    if c.added i
    then none
    else some (record { counter = c.counter + 1; added = λ j. if j == i then true else c.added j })

-- `syncMapExample`: the key of goroutine i is i; the goroutines store in some order, each its square.
abbrev pub store_square : ℕ → (ℕ → Option ℕ) → ℕ → Option ℕ
store_square i m k = if k == i then some (i * i) else m k

unfoldable pub sync_map_example : List ℕ → (ℕ → Option ℕ) → ℕ → Option ℕ
sync_map_example [] m = m
sync_map_example (i ∷ order) m = sync_map_example order (store_square i m)
