-- ===== src/SyncPrimitives/Singleton.antt =====
-- However the goroutines interleave, one service is made, and every one of them gets it.
use go_examples.Base.{
  ℕ, ◌≤◌, ==_iff, ◌≡◌, ◌⊎◌, inl, inr, refl, Bool, true, false, Option, some, arith,
}
use go_examples.SyncPrimitives.{
  Shared, Pc, entered, initialised, unlocking, after_do, got, Move, see_flag, lock, make, skip,
  store, read, System, update, Step, pick, init, Reach, start, later,
}

-- The goroutine has the mutex.
abbrev pub is_inside : Pc → Bool
is_inside entered = true
is_inside initialised = true
is_inside unlocking = true
is_inside _ = false

-- The goroutine has seen the flag.
abbrev pub is_past : Pc → Bool
is_past unlocking = true
is_past after_do = true
is_past (got x) = true
is_past _ = false

pub record Inv (m : Shared) (pc : ℕ → Pc) : Type 0 where
  pub single : (m.made ≡ 0) ⊎ ((m.made ≡ 1) × (m.instance ≡ some 0))
  pub settled : m.done ≡ true → m.made ≡ 1
  pub owned : m.made ≡ 1 → (m.done ≡ true) ⊎ ((i : ℕ) × (pc i ≡ initialised))
  pub exclusive : (i j : ℕ) → is_inside (pc i) ≡ true → is_inside (pc j) ≡ true → i ≡ j
  pub mutex : (i : ℕ) → is_inside (pc i) ≡ true → m.locked ≡ true
  pub setting : (i : ℕ) → pc i ≡ initialised → (m.made ≡ 1) × (m.done ≡ false)
  pub past : (i : ℕ) → is_past (pc i) ≡ true → m.done ≡ true
  pub gets : (i : ℕ) (x : Option ℕ) → pc i ≡ got x → x ≡ some 0

init-Inv : Inv init.mem init.pc
init-Inv = record {
  single = inl refl;
  settled = λ e. ground (arith, e);
  owned = λ e. ground (arith, e);
  exclusive = λ i j e. ground (arith, e);
  mutex = λ i e. ground (arith, e);
  setting = λ i e. ground (arith, e);
  past = λ i e. ground (arith, e);
  gets = λ i x e. ground (arith, e);
}

-- The premise of a move.
abbrev Guard : {m m' : Shared} {p p' : Pc} → Move m p m' p' → Type 0
Guard {m} (see_flag h) = m.done ≡ true
Guard {m} (lock h) = m.locked ≡ false
Guard {m} (make h) = m.done ≡ false
Guard {m} (skip h) = m.done ≡ true
Guard _ = Unit

guard : {m m' : Shared} {p p' : Pc} (mv : Move m p m' p') → Guard mv
guard (see_flag h) = h
guard (lock h) = h
guard (make h) = h
guard (skip h) = h
guard _ = tt

module _ {m : Shared} {pc : ℕ → Pc} (inv : Inv m pc) (i : ℕ) where
  open inv use {single, settled, owned, exclusive, mutex, setting, past, gets}

  Move-single :
      {p p' : Pc} {m' : Shared}
      → Move m p m' p'
      → pc i ≡ p
      → (m'.made ≡ 0) ⊎ ((m'.made ≡ 1) × (m'.instance ≡ some 0))
  Move-single (make h) e = elim single [
    | inl z ↦ inr (omega (arith, z), ground (arith, z))
    | inr (o, x) ↦ elim (owned o) [
      | inl d ↦ ground (arith, h, d)
      | inr (j, q) ↦ ground (arith, e, q, exclusive i j)
    ]
  ]
  Move-single mv e = single

  Move-exclusive :
      {p p' : Pc} {m' : Shared}
      → Move m p m' p'
      → pc i ≡ p
      → (j k : ℕ) → is_inside (update pc i p' j) ≡ true
      → is_inside (update pc i p' k) ≡ true
      → j ≡ k
  Move-exclusive (lock h) e j k a b =
      ground (arith, h, a, b, exclusive j k, mutex j, mutex k, ==_iff j i, ==_iff k i)
  Move-exclusive mv e j k a b = ground (
    arith,
    guard mv,
    e,
    a,
    b,
    exclusive j k,
    exclusive i k,
    exclusive j i,
    ==_iff j i,
    ==_iff k i,
  )

  Move-mutex :
      {p p' : Pc} {m' : Shared}
      → Move m p m' p'
      → pc i ≡ p
      → (j : ℕ) → is_inside (update pc i p' j) ≡ true
      → m'.locked ≡ true
  Move-mutex (lock h) e j a = refl
  Move-mutex mv e j a = ground (arith, guard mv, e, a, mutex j, mutex i, exclusive i j, ==_iff j i)

  Move-settled :
      {p p' : Pc} {m' : Shared} → Move m p m' p' → pc i ≡ p → m'.done ≡ true → m'.made ≡ 1
  Move-settled (make h) e d = ground (arith, h, d)
  Move-settled store e d = ground (arith, e, setting i)
  Move-settled mv e d = settled d

  -- The goroutine that has made the service stands there until it sets the flag.
  Move-owned :
      {p p' : Pc} {m' : Shared}
      → Move m p m' p'
      → pc i ≡ p
      → m'.made ≡ 1
      → (m'.done ≡ true) ⊎ ((j : ℕ) × (update pc i p' j ≡ initialised))
  Move-owned (make h) e o = inr (i, ground (arith, ==_iff i i))
  Move-owned store e o = inl refl
  Move-owned mv e o = elim (owned o) [
    | inl d ↦ inl d
    | inr (j, q) ↦ inr (j, ground (arith, e, q, ==_iff j i))
  ]

  Move-setting :
      {p p' : Pc} {m' : Shared}
      → Move m p m' p'
      → pc i ≡ p
      → (j : ℕ) → update pc i p' j ≡ initialised
      → (m'.made ≡ 1) × (m'.done ≡ false)
  Move-setting (make h) e j q = elim single [
    | inl z ↦ (omega (arith, z), h)
    | inr (o, x) ↦ elim (owned o) [
      | inl d ↦ ground (arith, h, d)
      | inr (k, r) ↦ ground (arith, e, r, exclusive i k)
    ]
  ]
  Move-setting store e j q = ground (arith, e, q, setting j, exclusive i j, ==_iff j i)
  Move-setting mv e j q = ground (arith, guard mv, e, q, setting j, ==_iff j i)

  Move-past :
      {p p' : Pc} {m' : Shared}
      → Move m p m' p'
      → pc i ≡ p
      → (j : ℕ) → is_past (update pc i p' j) ≡ true
      → m'.done ≡ true
  Move-past store e j q = refl
  Move-past mv e j q = ground (arith, guard mv, e, q, past j, past i, ==_iff j i)

  Move-gets :
      {p p' : Pc} {m' : Shared}
      → Move m p m' p'
      → pc i ≡ p
      → (j : ℕ) (x : Option ℕ) → update pc i p' j ≡ got x
      → x ≡ some 0
  Move-gets read e j x q =
      let d : m.made ≡ 1 = settled (past i (ground (arith, e))) in
      let y : m.instance ≡ some 0 = ground (arith, d, single) in
      ground (arith, e, q, y, gets j x, ==_iff j i)
  Move-gets (see_flag h) e j x q = ground (arith, q, gets j x, ==_iff j i)
  Move-gets mv e j x q = ground (arith, q, gets j x, ==_iff j i)

  Move-Inv : {p' : Pc} {m' : Shared} → Move m (pc i) m' p' → Inv m' (update pc i p')
  Move-Inv mv = record {
    single = Move-single mv refl;
    settled = Move-settled mv refl;
    owned = Move-owned mv refl;
    exclusive = Move-exclusive mv refl;
    mutex = Move-mutex mv refl;
    setting = Move-setting mv refl;
    past = Move-past mv refl;
    gets = Move-gets mv refl;
  }

Step-Inv : {n : ℕ} {s t : System} → Step n s t → Inv s.mem s.pc → Inv t.mem t.pc
Step-Inv (pick i l mv) inv = Move-Inv inv i mv

Reach-Inv : {n : ℕ} {s : System} → Reach n s → Inv s.mem s.pc
Reach-Inv start = init-Inv
Reach-Inv (later r st) = Step-Inv st (Reach-Inv r)

-- In every state that the goroutines reach, at most one service was made, and every goroutine that has
-- returned from getService has got that one.
pub made_once :
    {n : ℕ} {s : System}
    → Reach n s
    → (s.mem.made ≤ 1) × ((i : ℕ) (x : Option ℕ) → s.pc i ≡ got x → (x ≡ some 0) × (s.mem.made ≡ 1))
made_once {n} {s} r =
    let inv = Reach-Inv r in
    (
      ground (arith, inv.single),
      λ i x e. (inv.gets i x e, inv.settled (inv.past i (ground (arith, e)))),
    )
