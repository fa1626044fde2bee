-- ===== src/Lock/Demo/Stale.antt =====
-- The stale holder: what the demonstration shows, for any clock that respects its pauses.
use Prim.Native.String.{String}
use text.Mathlib.TextPositions.{eq_refl}
use go_examples.Base.{
  ℕ, ◌+◌, ◌*◌, ◌≤◌, ◌<◌, ◌≡◌, ◌≢◌, none, some, arith, ok, err, leaf, ltb, if◌then◌else◌,
}
use go_examples.Lock.Server.{Redis, Key, plain, fence_of, millis}
use go_examples.Lock.Storage.{write}
use go_examples.Lock.{delivered, Lock, acquire, release, release_script, err_not_held}
use go_examples.Lock.Lease.{release_script-ne}
use go_examples.Lock.Demo.{Env, World, lock_key, second, millisecond, stale_holder}

module _ (r : Redis) where
  open r use {Store, get, set_nx, incr, counter}

  abbrev key : Key
  key = plain lock_key

  -- The store after a successful Acquire.
  abbrev taken : ℕ → String → ℕ → Store → Store
  taken now v ttl s = (incr (fence_of lock_key) (set_nx now key v ttl s).0).0

  acquire_free :
      (now : ℕ) (v : String) (ttl : ℕ) (s : Store)
      → get now key s ≡ none
      → acquire r (some v) now delivered delivered lock_key ttl s ≡ (
        taken now v ttl s,
        ok (record { key = lock_key; token = v; fence = counter (fence_of lock_key) s + 1 }),
      )
  unfolding acquire
  acquire_free now v ttl s h = ground (
    arith,
    r.set_nx-reply now key v ttl s,
    r.incr-reply (fence_of lock_key) (set_nx now key v ttl s).0,
    r.counter-set_nx now key (fence_of lock_key) v ttl s (λ e. cc),
  )

  get-taken :
      (now u : ℕ) (v : String) (ttl : ℕ) (s : Store)
      → get now key s ≡ none
      → 1000000 ≤ ttl
      → now ≤ u
      → get u key (taken now v ttl s) ≡ (if ltb u (now + millis ttl) then some v else none)
  get-taken now u v ttl s h p q = ground (
    arith,
    r.set_nx-reply now key v ttl s,
    r.get-set_nx now u key v ttl s,
    r.get-incr u (fence_of lock_key) key (set_nx now key v ttl s).0 (λ e. cc),
  )

  counter-taken :
      (now : ℕ) (v : String) (ttl : ℕ) (s : Store)
      → counter (fence_of lock_key) (taken now v ttl s) ≡ counter (fence_of lock_key) s + 1
  counter-taken now v ttl s = ground (
    arith,
    r.counter-incr (fence_of lock_key) (set_nx now key v ttl s).0,
    r.counter-set_nx now key (fence_of lock_key) v ttl s (λ e. cc),
  )

  release_foreign :
      (now : ℕ) (l : Lock) (s : Store)
      → get now (plain l.key) s ≢ some l.token
      → release r now delivered l s ≡ (s, err (leaf err_not_held))
  unfolding release
  release_foreign now l s h = ground (arith, release_script-ne r now (plain l.key) l.token s h)

  release_own :
      (now : ℕ) (l : Lock) (s : Store)
      → get now (plain l.key) s ≡ some l.token
      → (release r now delivered l s).1 ≡ ok tt
  unfolding release release_script
  release_own now l s h = ground (arith, eq_refl l.token, r.del-reply now (plain l.key) s)

  -- The pauses of the demonstration, and a network that loses nothing.
  pub record IsQuiet (e : Env) : Type 0 where
    pub net_ok : (i : ℕ) → e.net i ≡ delivered
    pub incr_ok : (i : ℕ) → e.incr_net i ≡ delivered
    pub expired : e.now 0 + 100 ≤ e.now 1
    pub ordered : e.now 1 ≤ e.now 2
    pub ordered' : e.now 2 ≤ e.now 3
    pub in_time : e.now 3 < e.now 1 + 1000

  -- C's lock expires, D acquires it and writes; then C's release is refused, C's write is refused,
  -- and D's release succeeds: the demonstration returns nil, and the storage has seen D's fence.
  pub stale_holder_lem :
      (e : Env) (c d : String) (w : World r)
      → IsQuiet e
      → e.rand 0 ≡ some c
      → e.rand 1 ≡ some d
      → c ≢ d
      → get (e.now 0) key w.server ≡ none
      → w.storage.highest_fence ≤ counter (fence_of lock_key) w.server
      → ((stale_holder r e w).1 ≡ ok tt)
        × ((stale_holder r e w).0.storage.highest_fence ≡ counter (fence_of lock_key) w.server + 2)
  unfolding stale_holder write
  stale_holder_lem e c d w q rc rd ne free fresh =
      let s = w.server in
      let s1 = taken (e.now 0) c (100 * millisecond) s in
      let s2 = taken (e.now 1) d second s1 in
      let n = counter (fence_of lock_key) s in
      let lc : Lock = record { key = lock_key; token = c; fence = n + 1 } in
      let ld : Lock = record { key = lock_key; token = d; fence = n + 2 } in
      let free1 : get (e.now 1) key s1 ≡ none = ground (
        arith,
        get-taken (e.now 0) (e.now 1) c (100 * millisecond) s free (omega arith),
        q.expired,
      ) in
      let held : (u : ℕ) → e.now 1 ≤ u → u ≤ e.now 3 → get u key s2 ≡ some d = λ u p p'.
        ground (arith, get-taken (e.now 1) u d second s1 free1 (omega arith), q.in_time) in
      let not_c : get (e.now 2) key s2 ≢ some c =
        λ h. ground (arith, held (e.now 2) q.ordered q.ordered') in
      ground (
        arith,
        acquire_free (e.now 0) c (100 * millisecond) s free,
        acquire_free (e.now 1) d second s1 free1,
        counter-taken (e.now 0) c (100 * millisecond) s,
        release_foreign (e.now 2) lc s2 not_c,
        release_own (e.now 3) ld s2 (held (e.now 3) (omega arith) (omega arith)),
        q.net_ok 0,
        q.net_ok 1,
        q.net_ok 2,
        q.net_ok 3,
        q.incr_ok 0,
        q.incr_ok 1,
      )
