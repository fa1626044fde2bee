-- ===== src/SyncPrimitives/Tests.antt =====
-- Two goroutines, the second of which finds the flag under the mutex, and the theorem where both have returned.
use go_examples.Base.{ℕ, ◌≤◌, ◌≡◌, refl, true, false, Option, some, arith}
use go_examples.SyncPrimitives.{
  System, Shared, Pc, entered, initialised, unlocking, after_do, got, update, init, Reach, start,
  later, pick, lock, make, skip, store, unlock, read, compare_and_swap,
}
use go_examples.SyncPrimitives.Singleton.{made_once}

abbrev stepped : ℕ → Shared → Pc → System → System
stepped i m p s = record { mem = m; pc = update s.pc i p }

abbrev first_stored : System
first_stored =
    let s1 = stepped 0 (record init.mem { locked = true }) entered init in
    let s2 = stepped 0 (record s1.mem { instance = some 0; made = 1 }) initialised s1 in
    stepped 0 (record s2.mem { done = true }) unlocking s2

first_stored-Reach : Reach 2 first_stored
first_stored-Reach =
    later
      (later (later start (pick 0 (omega arith) (lock refl))) (pick 0 (omega arith) (make refl)))
      (pick 0 (omega arith) store)

abbrev first_out : System
first_out =
    let s1 = stepped 0 (record first_stored.mem { locked = false }) after_do first_stored in
    stepped 0 s1.mem (got (some 0)) s1

first_out-Reach : Reach 2 first_out
first_out-Reach =
    later (later first_stored-Reach (pick 0 (omega arith) unlock)) (pick 0 (omega arith) read)

abbrev both_out : System
both_out =
    let s1 = stepped 1 (record first_out.mem { locked = true }) entered first_out in
    let s2 = stepped 1 s1.mem unlocking s1 in
    let s3 = stepped 1 (record s2.mem { locked = false }) after_do s2 in
    stepped 1 s3.mem (got (some 0)) s3

both_out-Reach : Reach 2 both_out
both_out-Reach =
    later
      (later
        (later (later first_out-Reach (pick 1 (omega arith) (lock refl)))
          (pick 1 (omega arith) (skip refl)))
        (pick 1 (omega arith) unlock))
      (pick 1 (omega arith) read)

made_once_example :
    (both_out.mem.made ≤ 1)
    × ((i : ℕ) (x : Option ℕ) → both_out.pc i ≡ got x → (x ≡ some 0) × (both_out.mem.made ≡ 1))
made_once_example = made_once both_out-Reach

swaps-run : (compare_and_swap 0 1 0 ≡ (1, true)) × (compare_and_swap 0 2 1 ≡ (1, false))
unfolding compare_and_swap
swaps-run = (refl, refl)
