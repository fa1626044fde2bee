-- ===== src/Lock/Demo.antt =====
-- examples/distributed-lock/main.go: the three demonstrations, which `run` makes one after the
-- other. The environment gives the token, the server's time and the fate of the messages of each
-- call, by its place in the demonstration; `time.Sleep` is a bound on those times.
pub mod Stale
use Prim.Native.String.{String}
use go_examples.Base.{
  ℕ, zero, suc, ◌+◌, ◌*◌, Bool, true, false, Option, none, some, Result, ok, err, Error, leaf, wrap,
  if◌then◌else◌,
}
use go_examples.Lock.Server.{Redis, plain, fence_of}
use go_examples.Lock.Storage.{Storage, write}
use go_examples.Lock.{
  Net, Lock, LockError, Leaf, Context, worker, extending_after_slice, err_not_acquired,
  err_not_held, err_net, redis_unreachable, cleaning_previous_state, nil_error, stale_accepted,
  acquire, release, extend, is_error,
}

pub record Env : Type 0 where
  pub rand : ℕ → Option String
  pub now : ℕ → ℕ
  pub net : ℕ → Net
  pub incr_net : ℕ → Net  -- the second message of an Acquire

abbrev pub lock_key : String
lock_key = "examples:distributed-lock:orders"

abbrev pub second : ℕ
second = 1000000000

abbrev pub millisecond : ℕ
millisecond = 1000000

module _ (r : Redis) where
  open r use {Store, del}

  pub record World : Type 0 where
    pub server : Store
    pub storage : Storage

  abbrev pub M : Type 0 → Type 0
  M A = World → World × Result LockError A

  infixl 5 ◌>>=◌ ◌>>◌
  abbrev ◌>>=◌ : {A B : Type 0} → M A → (A → M B) → M B
  ◌>>=◌ m f w = let (w', a) = m w in elim a [ ok x ↦ f x w' | err e ↦ (w', err e) ]

  abbrev ◌>>◌ : {B : Type 0} → M (Unit {0}) → M B → M B
  m >> k = m >>= λ _. k

  abbrev wrapping : {A : Type 0} → Context → M A → M A
  wrapping c m w = let (w', a) = m w in (w', elim a [ ok x ↦ ok x | err e ↦ err (wrap c e) ])

  abbrev unexpected :
      {A : Type 0} → Leaf → Context → Result LockError A → Result LockError (Unit {0})
  unexpected target c (ok a) = err (wrap c (leaf nil_error))
  unexpected target c (err e) = if is_error e target then ok tt else err (wrap c e)

  -- `if _, err := ...; !errors.Is(err, target) { return fmt.Errorf("...", err) }`
  abbrev expect_error : {A : Type 0} → Leaf → Context → M A → M (Unit {0})
  expect_error target c m w = let (w', a) = m w in (w', unexpected target c a)

  abbrev on_server : {A : Type 0} → (Store → Store × Result LockError A) → M A
  on_server f w = let (s, a) = f w.server in (record w { server = s }, a)

  abbrev acquire_at : Env → ℕ → ℕ → M Lock
  acquire_at e i ttl =
      on_server (acquire r (e.rand i) (e.now i) (e.net i) (e.incr_net i) lock_key ttl)

  abbrev release_at : Env → ℕ → Lock → M (Unit {0})
  release_at e i l = on_server (release r (e.now i) (e.net i) l)

  abbrev extend_at : Env → ℕ → Lock → ℕ → M (Unit {0})
  extend_at e i l ttl = on_server (extend r (e.now i) (e.net i) l ttl)

  abbrev store_write : ℕ → M (Unit {0})
  store_write fence w = let (s, a) = write fence w.storage in (record w { storage = s }, a)

  abbrev accepted_stale : Result LockError (Unit {0}) → Result LockError (Unit {0})
  accepted_stale (ok a) = err (leaf stale_accepted)
  accepted_stale (err e) = ok tt

  unfoldable pub mutual_exclusion : Env → M (Unit {0})
  mutual_exclusion e = do
    a ← wrapping (worker "A acquiring") (acquire_at e 0 second)
    expect_error err_not_acquired (worker "B: expected ErrNotAcquired") (acquire_at e 1 second)
    wrapping (worker "A releasing") (release_at e 2 a)
    b ← wrapping (worker "B acquiring after release") (acquire_at e 3 second)
    release_at e 4 b

  -- `for slice := 1; slice <= 3; slice++`, with the slices left and the next one's number.
  extend_slices : Env → Lock → ℕ → ℕ → M (Unit {0})
  extend_slices e l zero i = λ w. (w, ok tt)
  extend_slices e l (suc n) i =
      let rest : M (Unit {0}) = extend_slices e l n (i + 1) in
      wrapping (extending_after_slice i) (extend_at e i l (200 * millisecond)) >> rest

  unfoldable pub lease_renewal : Env → M (Unit {0})
  unfolding extend_slices
  lease_renewal e = do
    l ← wrapping (worker "acquiring") (acquire_at e 0 (200 * millisecond))
    extend_slices e l 3 1
    store_write l.fence
    wrapping (worker "releasing") (release_at e 4 l)

  unfoldable pub stale_holder : Env → M (Unit {0})
  stale_holder e = do
    c ← wrapping (worker "C acquiring") (acquire_at e 0 (100 * millisecond))
    d ← wrapping (worker "D acquiring after expiry") (acquire_at e 1 second)
    store_write d.fence
    expect_error err_not_held (worker "C release: expected ErrNotHeld") (release_at e 2 c)
    λ w. let (s, a) = write c.fence w.storage in (record w { storage = s }, accepted_stale a)
    wrapping (worker "D releasing") (release_at e 3 d)

  -- The server after the DEL of the lock's two keys, and a new storage.
  abbrev pub clean_slate : ℕ → Store → World
  clean_slate now s = record {
    server = (del now (fence_of lock_key) (del now (plain lock_key) s).0).0;
    storage = record { highest_fence = 0 };
  }

  -- Given whether the server answers PING and DEL, the time of the DEL, and the environment of each demonstration.
  unfoldable pub run :
      Bool → Bool → ℕ → Env → Env → Env → Store → World × Result LockError (Unit {0})
  unfolding mutual_exclusion lease_renewal stale_holder
  run pings cleans now e1 e2 e3 s =
      let unused : World = record { server = s; storage = record { highest_fence = 0 } } in
      let demos : M (Unit {0}) = mutual_exclusion e1 >> (lease_renewal e2 >> stale_holder e3) in
      if pings
      then if cleans
        then demos (clean_slate now s)
        else (unused, err (wrap cleaning_previous_state (leaf err_net)))
      else (unused, err (wrap redis_unreachable (leaf err_net)))
