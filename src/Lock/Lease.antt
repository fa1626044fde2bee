-- ===== src/Lock/Lease.antt =====
-- lock.go: while a lease runs, nobody else gets, frees or renews the lock.
use Prim.Native.String.{String}
use text.Mathlib.Text.{◌==◌ as str_eq}
use text.Mathlib.TextEquality.{eq_iff}
use text.Mathlib.TextPositions.{eq_refl}
use go_examples.Base.{
  ℕ, ◌+◌, ◌≤◌, ◌<◌, ◌≡◌, refl, ◌⊎◌, inl, inr, Bool-cases, Option-cases, ◌∙◌, ap, ◌≢◌, Bool, false,
  List, [], ◌∷◌, Option, none, some, arith, ok, err, leaf, wrap, ltb, is_ok, length, replicate, All,
  if◌then◌else◌,
}
use go_examples.Lock.Server.{Redis, Key, plain, fence_of, millis}
use go_examples.Lock.{
  Net, delivered, lost_request, lost_reply, Lock, acquire, release, extend, release_script,
  extend_script, err_not_held, err_net, issuing_fencing_token,
}
use go_examples.Lock.Fences.{Op, acquires, releases, extends, apply, run}

str_eq-ne : (v w : String) → some v ≢ some w → str_eq v w ≡ false
str_eq-ne v w h = elim (Bool-cases (str_eq v w)) [
  | inl e ↦ absurd (h (ap some ((eq_iff v w).0 e)))
  | inr e ↦ e
]

-- A script whose token is not the one stored does nothing.
pub release_script-ne :
    (r : Redis) (now : ℕ) (k : Key) (w : String) (s : r.Store)
    → r.get now k s ≢ some w
    → release_script r now k w s ≡ (s, 0)
unfolding release_script
release_script-ne r now k w s h = elim (Option-cases (r.get now k s)) [
  | inl e ↦ rw (e, release_script)
  | inr (v, e) ↦ rw (e, release_script, str_eq-ne v w (rw e at h))
]

extend_script-ne :
    (r : Redis) (now : ℕ) (k : Key) (w : String) (ms : ℕ) (s : r.Store)
    → r.get now k s ≢ some w
    → extend_script r now k w ms s ≡ (s, 0)
unfolding extend_script
extend_script-ne r now k w ms s h = elim (Option-cases (r.get now k s)) [
  | inl e ↦ rw (e, extend_script)
  | inr (v, e) ↦ rw (e, extend_script, str_eq-ne v w (rw e at h))
]

module _ (r : Redis) (key : String) where
  open r use {Store, get, set_nx, del, pexpire}

  -- Whether the client gets a nil error.
  unfoldable pub succeeds : Op → Store → Bool
  succeeds (acquires rand now net net' ttl) s = is_ok (acquire r rand now net net' key ttl s).1
  succeeds (releases now net token fence) s =
      is_ok (release r now net (record { key = key; token = token; fence = fence }) s).1
  succeeds (extends now net token fence ttl) s =
      is_ok (extend r now net (record { key = key; token = token; fence = fence }) ttl s).1

  unfoldable pub successes : List Op → Store → List Bool
  successes [] s = []
  successes (o ∷ os) s = succeeds o s ∷ successes os (apply r key o s)

  -- The server has executed the operation by time `u`, and it does not carry the token `v`. An
  -- acquisition may carry any token.
  abbrev pub IsForeign : ℕ → String → Op → Type 0
  IsForeign u v (acquires rand now net net' ttl) = now ≤ u
  IsForeign u v (releases now net token fence) = (now ≤ u) × (v ≢ token)
  IsForeign u v (extends now net token fence ttl) = (now ≤ u) × (v ≢ token)

  foreign-apply :
      (u : ℕ) (v : String) (o : Op) (s : Store)
      → get u (plain key) s ≡ some v
      → IsForeign u v o
      → (apply r key o s ≡ s) × (succeeds o s ≡ false)
  unfolding apply succeeds acquire release extend release_script extend_script
  foreign-apply u v (acquires none now net net' ttl) s h f = (refl, refl)
  foreign-apply u v (acquires (some w) now lost_request net' ttl) s h f = (refl, refl)
  foreign-apply u v (acquires (some w) now lost_reply net' ttl) s h f = ground (
    arith,
    r.get-mono now u (plain key) s v,
    r.set_nx-reply now (plain key) w ttl s,
    r.set_nx-held now (plain key) w ttl s,
  )
  foreign-apply u v (acquires (some w) now delivered net' ttl) s h f = ground (
    arith,
    r.get-mono now u (plain key) s v,
    r.set_nx-reply now (plain key) w ttl s,
    r.set_nx-held now (plain key) w ttl s,
  )
  foreign-apply u v (releases now delivered w n) s h f =
      ground (arith, r.get-mono now u (plain key) s v, eq_iff v w)
  foreign-apply u v (releases now lost_request w n) s h f = (refl, refl)
  foreign-apply u v (releases now lost_reply w n) s h f =
      ground (arith, r.get-mono now u (plain key) s v, eq_iff v w)
  foreign-apply u v (extends now delivered w n ttl) s h f =
      ground (arith, r.get-mono now u (plain key) s v, eq_iff v w)
  foreign-apply u v (extends now lost_request w n ttl) s h f = (refl, refl)
  foreign-apply u v (extends now lost_reply w n ttl) s h f =
      ground (arith, r.get-mono now u (plain key) s v, eq_iff v w)

  foreign-run :
      (u : ℕ) (v : String) (os : List Op) (s : Store)
      → get u (plain key) s ≡ some v
      → All (IsForeign u v) os
      → (run r key os s ≡ s) × (successes os s ≡ replicate (length os) false)
  unfolding run successes
  foreign-run u v [] s h f = (refl, refl)
  foreign-run u v (o ∷ os) s h f =
      let (same, no_success) = foreign-apply u v o s h f.0 in
      let (same', none_succeeds) = foreign-run u v os s h f.1 in
      rw same (same', rw (no_success, none_succeeds))

  acquire_lease :
      (rand : Option String) (now u ttl : ℕ) (a b : Net) (s : Store) (l : Lock)
      → (acquire r rand now a b key ttl s).1 ≡ ok l
      → 1000000 ≤ ttl
      → now ≤ u
      → u < now + millis ttl
      → get u (plain key) (acquire r rand now a b key ttl s).0 ≡ some l.token
  unfolding acquire
  acquire_lease none now u ttl a b s l e h p q = absurd (cc)
  acquire_lease (some v) now u ttl lost_request b s l e h p q = absurd (cc)
  acquire_lease (some v) now u ttl lost_reply b s l e h p q = absurd (cc)
  acquire_lease (some v) now u ttl delivered lost_request s l e h p q = ground arith
  acquire_lease (some v) now u ttl delivered lost_reply s l e h p q = ground arith
  acquire_lease (some v) now u ttl delivered delivered s l e h p q = ground (
    arith,
    r.get-set_nx now u (plain key) v ttl s,
    r.get-incr u (fence_of key) (plain key) (set_nx now (plain key) v ttl s).0 (λ e. cc),
  )

  -- Mutual exclusion: from a successful Acquire until its lease ends, no Acquire and no foreign
  -- Release or Extend succeeds, and none of them changes the store.
  pub acquire_excludes :
      (rand : Option String) (now u ttl : ℕ) (a b : Net) (s : Store) (l : Lock) (os : List Op)
      → (acquire r rand now a b key ttl s).1 ≡ ok l
      → 1000000 ≤ ttl
      → now ≤ u
      → u < now + millis ttl
      → All (IsForeign u l.token) os
      → let s' = (acquire r rand now a b key ttl s).0 in
        (run r key os s' ≡ s') × (successes os s' ≡ replicate (length os) false)
  acquire_excludes rand now u ttl a b s l os e h p q f =
      foreign-run u l.token os _ (acquire_lease rand now u ttl a b s l e h p q) f

  abbrev pub ReleaseOutcome : ℕ → ℕ → Lock → Store → Type 0
  ReleaseOutcome now u l s =
      let (s', reply) = release r now delivered l s in
      ((get now (plain l.key) s ≡ some l.token) × (reply ≡ ok tt) × (get u (plain l.key) s' ≡ none))
      ⊎ ((get now (plain l.key) s ≢ some l.token) × (reply ≡ err (leaf err_not_held)) × (s' ≡ s))

  release_owned :
      (now u : ℕ) (l : Lock) (s : Store)
      → get now (plain l.key) s ≡ some l.token
      → ReleaseOutcome now u l s
  unfolding release release_script
  release_owned now u l s h = inl (
    h,
    ground (arith, eq_refl l.token, r.del-reply now (plain l.key) s),
    ground (arith, eq_refl l.token, r.get-del now u (plain l.key) s),
  )

  release_unowned :
      (now u : ℕ) (l : Lock) (s : Store)
      → get now (plain l.key) s ≢ some l.token
      → ReleaseOutcome now u l s
  unfolding release release_script
  release_unowned now u l s h =
      let e = release_script-ne r now (plain l.key) l.token s h in inr (h, rw e, rw e)

  abbrev pub ExtendOutcome : ℕ → ℕ → ℕ → Lock → Store → Type 0
  ExtendOutcome now u ttl l s =
      let (s', reply) = extend r now delivered l ttl s in
      ((get now (plain l.key) s ≡ some l.token)
        × (reply ≡ ok tt)
        × (get u (plain l.key) s' ≡ (if ltb u (now + millis ttl) then some l.token else none)))
      ⊎ ((get now (plain l.key) s ≢ some l.token) × (reply ≡ err (leaf err_not_held)) × (s' ≡ s))

  extend_owned :
      (now u ttl : ℕ) (l : Lock) (s : Store)
      → now ≤ u
      → get now (plain l.key) s ≡ some l.token
      → ExtendOutcome now u ttl l s
  unfolding extend extend_script
  extend_owned now u ttl l s p h = inl (
    h,
    ground (arith, eq_refl l.token, r.pexpire-reply now (plain l.key) (millis ttl) s),
    ground (arith, eq_refl l.token, r.get-pexpire now u (plain l.key) (millis ttl) s l.token),
  )

  extend_unowned :
      (now u ttl : ℕ) (l : Lock) (s : Store)
      → get now (plain l.key) s ≢ some l.token
      → ExtendOutcome now u ttl l s
  unfolding extend extend_script
  extend_unowned now u ttl l s h =
      let e = extend_script-ne r now (plain l.key) l.token (millis ttl) s h in inr (h, rw e, rw e)

  -- What Release tells its caller is whether the caller held the lock: it frees the lock then, and
  -- otherwise changes nothing.
  pub release_owner : (now u : ℕ) (l : Lock) (s : Store) → ReleaseOutcome now u l s
  release_owner now u l s = elim (Option-cases (get now (plain l.key) s)) [
    | inl e ↦ release_unowned now u l s (λ h. cc)
    | inr (v, e) ↦ elim (Bool-cases (str_eq v l.token)) [
      | inl h ↦ release_owned now u l s (e ∙ ap some ((eq_iff v l.token).0 h))
      | inr h ↦ release_unowned now u l s (λ k. ground (arith, eq_iff v l.token))
    ]
  ]

  -- Extend renews the lease for its owner, and otherwise changes nothing.
  pub extend_owner : (now u ttl : ℕ) (l : Lock) (s : Store) → now ≤ u → ExtendOutcome now u ttl l s
  extend_owner now u ttl l s p = elim (Option-cases (get now (plain l.key) s)) [
    | inl e ↦ extend_unowned now u ttl l s (λ h. cc)
    | inr (v, e) ↦ elim (Bool-cases (str_eq v l.token)) [
      | inl h ↦ extend_owned now u ttl l s p (e ∙ ap some ((eq_iff v l.token).0 h))
      | inr h ↦ extend_unowned now u ttl l s (λ k. ground (arith, eq_iff v l.token))
    ]
  ]

  -- The gap in Acquire: when INCR fails after SET NX has succeeded, the caller gets an error and
  -- no lock, and yet the key is held until the lease ends, under a token that no one was given.
  pub acquire_without_fence :
      (v : String) (now u ttl : ℕ) (s : Store)
      → get now (plain key) s ≡ none
      → 1000000 ≤ ttl
      → now ≤ u
      → u < now + millis ttl
      → let (s', reply) = acquire r (some v) now delivered lost_request key ttl s in
        (reply ≡ err (wrap issuing_fencing_token (leaf err_net))) × (get u (plain key) s' ≡ some v)
  unfolding acquire
  acquire_without_fence v now u ttl s h p q t =
      ground (arith, r.get-set_nx now u (plain key) v ttl s, r.set_nx-reply now (plain key) v ttl s)
