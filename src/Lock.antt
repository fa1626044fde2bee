-- ===== src/Lock.antt =====
-- examples/distributed-lock: lock.go, over the interface of the Redis server. The result of
-- `rand.Read`, the server's time and the fate of each message are arguments.
pub mod Server
pub mod Fences
pub mod Storage
pub mod Lease
pub mod Demo
mod Memory
mod Tests
use Prim.Native.String.{String}
use text.Mathlib.Text.{◌==◌ as str_eq}
use go_examples.Base.{
  ℕ, ◌≡◌, Bool, true, false, Option, none, some, Result, ok, err, Error, leaf, wrap, ◌==◌,
  if◌then◌else◌,
}
use Server.{Redis, Key, plain, fence_of, millis}

-- The fate of a command: executed and answered, or reported as an error, in which case the server
-- may have executed it all the same.
pub data Net : Type 0 where
  delivered lost_request lost_reply : Net

pub data Leaf : Type 0 where
  err_not_acquired err_not_held err_rand err_net stale_fence stale_accepted : Leaf
  nil_error : Leaf  -- %w applied to a nil error

-- The contexts of fmt.Errorf in lock.go and main.go.
pub data Context : Type 0 where
  generating_owner_token acquiring_lock issuing_fencing_token releasing_lock extending_lock :
      Context
  redis_unreachable cleaning_previous_state : Context
  worker : String → Context
  extending_after_slice : ℕ → Context

abbrev pub LockError : Type 0
LockError = Error Context Leaf

pub record Lock : Type 0 where
  pub key : String
  pub token : String
  pub fence : ℕ

abbrev pub send {ℓ} : {S : Type 0} {A : Type ℓ} → Net → (S → S × A) → S → S × Result LockError A
send delivered command s = let (s', a) = command s in (s', ok a)
send lost_request command s = (s, err (leaf err_net))
send lost_reply command s = ((command s).0, err (leaf err_net))

-- `errors.Is(err, target)` walks the chain of %w.
abbrev pub same_leaf : Leaf → Leaf → Bool
same_leaf err_not_acquired err_not_acquired = true
same_leaf err_not_held err_not_held = true
same_leaf _ _ = false

abbrev pub is_error : LockError → Leaf → Bool
is_error (leaf e) target = same_leaf e target
is_error (wrap c e) target = is_error e target

module _ (r : Redis) where
  open r use {Store, get, set_nx, del, pexpire, incr}

  -- The two Lua scripts, which the server runs atomically.
  unfoldable pub release_script : ℕ → Key → String → Store → Store × ℕ
  release_script now key token s = elim (get now key s) [
    | none ↦ (s, 0)
    | some v ↦ if str_eq v token then del now key s else (s, 0)
  ]

  unfoldable pub extend_script : ℕ → Key → String → ℕ → Store → Store × ℕ
  extend_script now key token ms s = elim (get now key s) [
    | none ↦ (s, 0)
    | some v ↦ if str_eq v token then pexpire now key ms s else (s, 0)
  ]

  -- The part of `Acquire` after SetNX.
  abbrev issue_fence :
      String → String → Net → Store × Result LockError Bool → Store × Result LockError Lock
  issue_fence key token net (s, err e) = (s, err (wrap acquiring_lock e))
  issue_fence key token net (s, ok false) = (s, err (leaf err_not_acquired))
  issue_fence key token net (s, ok true) =
      let (s', reply) = send net (incr (fence_of key)) s in
      (
        s',
        elim reply [
          | err e ↦ err (wrap issuing_fencing_token e)
          | ok fence ↦ ok (record { key = key; token = token; fence = fence })
        ],
      )

  -- `rand` is the token, or `none` where rand.Read fails.
  unfoldable pub acquire :
      Option String → ℕ → Net → Net → String → ℕ → Store → Store × Result LockError Lock
  acquire none now net net' key ttl s = (s, err (wrap generating_owner_token (leaf err_rand)))
  acquire (some token) now net net' key ttl s =
      issue_fence key token net' (send net (set_nx now (plain key) token ttl) s)

  abbrev held : Context → Result LockError ℕ → Result LockError (Unit {0})
  held c (err e) = err (wrap c e)
  held c (ok n) = if n == 0 then err (leaf err_not_held) else ok tt

  unfoldable pub release : ℕ → Net → Lock → Store → Store × Result LockError (Unit {0})
  unfolding release_script
  release now net l s =
      let (s', reply) = send net (release_script now (plain l.key) l.token) s in
      (s', held releasing_lock reply)

  unfoldable pub extend : ℕ → Net → Lock → ℕ → Store → Store × Result LockError (Unit {0})
  unfolding extend_script
  extend now net l ttl s =
      let (s', reply) = send net (extend_script now (plain l.key) l.token (millis ttl)) s in
      (s', held extending_lock reply)
