-- ===== src/Lock/Tests.antt =====
-- The lock on the server in memory.
use text.Mathlib.TextEquality.{eq_iff}
use go_examples.Base.{
  ◌<◌, ◌≡◌, refl, false, [], ◌∷◌, none, some, arith, ok, err, leaf, wrap, if◌then◌else◌, ◌==◌, ◌*◌,
  ℕ, ◌+◌, true,
}
use go_examples.Lock.Server.{plain}
use go_examples.Lock.Memory.{Memory, memory}
use go_examples.Lock.{
  extend, release_script, extend_script, Lock, delivered, lost_request, lost_reply, acquire,
  release, err_net, stale_fence, issuing_fencing_token,
}
use go_examples.Lock.Fences.{acquires, releases, apply, run, fences_grow}
use go_examples.Lock.Storage.{write, writes, stale_write_refused}
use go_examples.Lock.Lease.{
  successes, acquire_excludes, release_owner, extend_owner, acquire_without_fence, ReleaseOutcome,
  ExtendOutcome,
}
use go_examples.Lock.Demo
use go_examples.Lock.Demo.{Env, stale_holder}
use go_examples.Lock.Demo.Stale.{stale_holder_lem}

abbrev empty : Memory
empty = record { values = λ k. none; numbers = λ k. 0 }

abbrev lock_a : Lock
lock_a = record { key = "k"; token = "a"; fence = 1 }

abbrev lock_b : Lock
lock_b = record { key = "k"; token = "b"; fence = 2 }

fences_grow_example : 1 < 2
unfolding acquire run apply release
fences_grow_example =
    fences_grow memory "k" (some "a") (some "b") 0 10 1000000000 1000000000 delivered delivered
      delivered delivered (releases 5 delivered "a" 1 ∷ []) empty lock_a lock_b refl refl

stale_write_refused_example :
    write 1 (writes (2 ∷ []) (write 2 (record { highest_fence = 0 })).0)
    ≡ (writes (2 ∷ []) (write 2 (record { highest_fence = 0 })).0, err (leaf stale_fence))
unfolding write
stale_write_refused_example =
    stale_write_refused 1 2 (2 ∷ []) (record { highest_fence = 0 }) refl (omega arith)

-- The store in which `a` holds the lock for a second from time 0 on.
abbrev held_by_a : Memory
held_by_a = (acquire memory (some "a") 0 delivered delivered "k" 1000000000 empty).0

acquire_excludes_example :
    (run memory "k"
        (acquires (some "b") 10 delivered delivered 5 ∷ releases 20 lost_reply "b" 2 ∷ [])
        held_by_a
      ≡ held_by_a)
    × (successes memory "k"
          (acquires (some "b") 10 delivered delivered 5 ∷ releases 20 lost_reply "b" 2 ∷ [])
          held_by_a
        ≡ false ∷ false ∷ [])
unfolding acquire
acquire_excludes_example =
    acquire_excludes memory "k" (some "a") 0 30 1000000000 delivered delivered empty lock_a
      (acquires (some "b") 10 delivered delivered 5 ∷ releases 20 lost_reply "b" 2 ∷ []) refl
      (omega arith) (omega arith) (omega arith)
      (omega arith, ((omega arith, λ e. ground (arith, eq_iff "a" "b")), tt))

release_owner_instance : ReleaseOutcome memory "k" 20 21 lock_b held_by_a
release_owner_instance = release_owner memory "k" 20 21 lock_b held_by_a

extend_owner_instance : ExtendOutcome memory "k" 20 21 1000000000 lock_a held_by_a
extend_owner_instance = extend_owner memory "k" 20 21 1000000000 lock_a held_by_a (omega arith)

acquire_without_fence_example :
    let (s', reply) = acquire memory (some "a") 0 delivered lost_request "k" 1000000000 empty in
    (reply ≡ err (wrap issuing_fencing_token (leaf err_net)))
    × (memory.get 500 (plain "k") s' ≡ some "a")
acquire_without_fence_example =
    acquire_without_fence memory "k" "a" 0 500 1000000000 empty refl (omega arith) (omega arith)
      (omega arith)

abbrev calls : Env
calls = record {
  rand = λ i. if i == 0 then some "c" else some "d";
  now = λ i. i * 250;
  net = λ i. delivered;
  incr_net = λ i. delivered;
}

stale_holder_lem_instance :
    let (w, reply) =
      stale_holder memory calls
        (record { server = empty; storage = record { highest_fence = 0 } }) in
    (reply ≡ ok tt) × (w.storage.highest_fence ≡ 2)
stale_holder_lem_instance =
    stale_holder_lem memory calls "c" "d"
      (record { server = empty; storage = record { highest_fence = 0 } })
      (record {
        net_ok = λ i. refl;
        incr_ok = λ i. refl;
        expired = omega arith;
        ordered = omega arith;
        ordered' = omega arith;
        in_time = omega arith;
      })
      refl refl (λ e. ground (arith, eq_iff "c" "d")) refl (omega arith)

-- The environment of a demonstration from a time on, `step` milliseconds for each call.
abbrev calls_from : ℕ → ℕ → Env
calls_from start step = record {
  rand = λ i. if i == 0 then some "first" else if i == 1 then some "second" else some "third";
  now = λ i. start + i * step;
  net = λ i. delivered;
  incr_net = λ i. delivered;
}

whole_run :
    let (w, reply) =
      Demo.run memory true true 0
        (calls_from 1 1)
        (calls_from 10 150)
        (calls_from 1000 250)
        empty in
    (reply ≡ ok tt) × (w.storage.highest_fence ≡ 5)
unfolding Demo.run Demo.mutual_exclusion Demo.lease_renewal Demo.stale_holder acquire release extend
    release_script extend_script write
whole_run = (refl, refl)
