-- ===== src/Pipeline/FanIn/Conservation.antt =====
-- The merged output is the squares of the numbers, in some order.
use mathlib.Core.Path.{subst}
use go_examples.Base.{
  ℕ, zero, suc, ◌+◌, ◌≡◌, refl, ap, ◌⊎◌, inl, inr, Bool, true, false, List, [], ◌∷◌, map, some,
  arith, Option-cases, Bool-cases, All, length, count,
}
use go_examples.Pipeline.{Stage, waiting, holding, exited, squared, is_exited, send, exit}
use go_examples.Pipeline.Order.{held}
use go_examples.Pipeline.FanIn.{
  Lane, Net, LaneEvent, generated, passed, forwarded, square_exit, forwarder_exit, Moved, pass,
  generate, forward, quiet, exit_square, exit_forwarder, lane_step, lanes_step, all_forwarded,
}

abbrev pub lane_count : ℕ → Lane → ℕ
lane_count v a = count v (held a.square) + count v (held a.forwarder)

abbrev pub lanes_count : ℕ → List Lane → ℕ
lanes_count v [] = 0
lanes_count v (a ∷ rest) = lane_count v a + lanes_count v rest

-- A square exits after gen, and a forwarder after its square.
abbrev pub Orderly : Bool → Lane → Type 0
Orderly gen_exited a =
    (is_exited a.square ≡ true → gen_exited ≡ true)
    × (is_exited a.forwarder ≡ true → is_exited a.square ≡ true)

pub Stage-cases : (s : Stage) → (s ≡ waiting) ⊎ ((s ≡ exited) ⊎ ((v : ℕ) × (s ≡ holding v)))
Stage-cases waiting = inl refl
Stage-cases exited = inr (inl refl)
Stage-cases (holding v) = inr (inr (v, refl))

-- What a lane's event keeps while the context is not cancelled.
abbrev Kept : Net → Lane → Moved → Type 0
Kept n a m =
    ((v : ℕ)
      → count v (map squared m.nums) + lane_count v m.lane + count v m.received
        ≡ count v (map squared n.nums) + lane_count v a)
    × Orderly n.gen_exited m.lane
    × (n.gen_exited ≡ true → m.nums ≡ n.nums)

module _ (n : Net) (a : Lane) (m : Moved) (c : n.cancelled ≡ false)
    (o : Orderly n.gen_exited a) where
  generate-Kept :
      (nums : List ℕ) → n.nums ≡ nums → generate n.gen_exited nums a ≡ some m → Kept n a m
  generate-Kept [] p h = ground (arith, h)
  generate-Kept (x ∷ xs) p h = elim (Bool-cases n.gen_exited) [
    | inl t ↦ ground (arith, h, t)
    | inr t ↦ elim (Stage-cases a.square) [
      | inl q ↦ ((λ v. ground (arith, h, t, q, p)), ground (arith, h, t, q, o), ground (arith, t))
      | inr (inl q) ↦ ground (arith, h, t, q)
      | inr (inr (v, q)) ↦ ground (arith, h, t, q)
    ]
  ]

  pass-Kept : pass (send a.square) n.nums a ≡ some m → Kept n a m
  pass-Kept h = elim (Stage-cases a.square) [
    | inl q ↦ ground (arith, h, q)
    | inr (inl q) ↦ ground (arith, h, q)
    | inr (inr (x, q)) ↦ elim (Stage-cases a.forwarder) [
      | inl p ↦
          ((λ v. ground (arith, h, p, q)), ground (arith, h, p, q, o), ground (arith, h, p, q))
      | inr (inl p) ↦ ground (arith, h, p, q)
      | inr (inr (y, p)) ↦ ground (arith, h, p, q)
    ]
  ]

  forward-Kept : forward n.cancelled (send a.forwarder) n.nums a ≡ some m → Kept n a m
  forward-Kept h = elim (Stage-cases a.forwarder) [
    | inl q ↦ ground (arith, h, q)
    | inr (inl q) ↦ ground (arith, h, q)
    | inr (inr (x, q)) ↦
        ((λ v. ground (arith, h, c, q)), ground (arith, h, c, q, o), ground (arith, h, c, q))
  ]

  square_exit-Kept :
      quiet n.nums (exit_square (exit n.gen_exited n.cancelled a.square) a) ≡ some m → Kept n a m
  square_exit-Kept h = elim (Stage-cases a.square) [
    | inl q ↦ elim (Bool-cases n.gen_exited) [
      | inl t ↦
          ((λ v. ground (arith, h, t, q)), ground (arith, h, t, q, o), ground (arith, h, t, q))
      | inr t ↦ ground (arith, h, t, q)
    ]
    | inr (inl q) ↦ ground (arith, h, q)
    | inr (inr (x, q)) ↦ ground (arith, h, c, q)
  ]

  forwarder_exit-Kept :
      quiet n.nums (exit_forwarder (exit (is_exited a.square) n.cancelled a.forwarder) a) ≡ some m
      → Kept n a m
  forwarder_exit-Kept h = elim (Stage-cases a.forwarder) [
    | inl q ↦ elim (Bool-cases (is_exited a.square)) [
      | inl t ↦
          ((λ v. ground (arith, h, t, q)), ground (arith, h, t, q, o), ground (arith, h, t, q))
      | inr t ↦ ground (arith, h, t, q)
    ]
    | inr (inl q) ↦ ground (arith, h, q)
    | inr (inr (x, q)) ↦ ground (arith, h, c, q)
  ]

  lane_step-Kept : (e : LaneEvent) → lane_step e n a ≡ some m → Kept n a m
  unfolding lane_step
  lane_step-Kept generated h = generate-Kept n.nums refl h
  lane_step-Kept passed h = pass-Kept h
  lane_step-Kept forwarded h = forward-Kept h
  lane_step-Kept square_exit h = square_exit-Kept h
  lane_step-Kept forwarder_exit h = forwarder_exit-Kept h

abbrev pub LanesKept : Net → List Lane → Moved × List Lane → Type 0
LanesKept n rest (m, rest') =
    ((v : ℕ)
      → count v (map squared m.nums) + lanes_count v rest' + count v m.received
        ≡ count v (map squared n.nums) + lanes_count v rest)
    × All (Orderly n.gen_exited) rest'
    × (n.gen_exited ≡ true → m.nums ≡ n.nums)
    × (length rest' ≡ length rest)

pub lanes_step-Kept :
    (k : ℕ) (e : LaneEvent) (n : Net) (rest : List Lane) (x : Moved × List Lane)
    → n.cancelled ≡ false
    → All (Orderly n.gen_exited) rest
    → lanes_step k e n rest ≡ some x
    → LanesKept n rest x
unfolding lanes_step
lanes_step-Kept k e n [] x c o h = ground (arith, h)
lanes_step-Kept zero e n (a ∷ rest) x c (o, os) h = elim (Option-cases (lane_step e n a)) [
  | inl q ↦ ground (arith, h, q)
  | inr (m, q) ↦
      let (i, j, k) = lane_step-Kept n a m c o e q in
      let p : (m, m.lane ∷ rest) ≡ x = ground (arith, h, q) in
      subst (LanesKept n (a ∷ rest)) p ((λ v. omega (arith, i v)), (j, os), k, refl)
]
lanes_step-Kept (suc k) e n (a ∷ rest) x c (o, os) h = elim (Option-cases (lanes_step k e n rest)) [
  | inl q ↦ ground (arith, h, q)
  | inr ((m, bs), q) ↦
      let (i, j, l, z) = lanes_step-Kept k e n rest (m, bs) c os q in
      let p : (m, a ∷ bs) ≡ x = ground (arith, h, q) in
      subst (LanesKept n (a ∷ rest)) p ((λ v. omega (arith, i v)), (o, j), l, ap suc z)
]

-- No value comes or goes, and the goroutines exit in the order of the data, while the context is
-- not cancelled.
pub record IsFlow (nums : List ℕ) (lanes : ℕ) (n : Net) : Type 0 where
  pub values :
      (v : ℕ)
      → count v (map squared n.nums) + lanes_count v n.lanes + count v n.taken
        ≡ count v (map squared nums)
  pub orderly : All (Orderly n.gen_exited) n.lanes
  pub gen_over : n.gen_exited ≡ true → n.nums ≡ []
  pub width : length n.lanes ≡ lanes
  pub shut : n.closed ≡ true → all_forwarded n.lanes ≡ true

abbrev pub FlowsUntilCancelled : List ℕ → ℕ → Net → Type 0
FlowsUntilCancelled nums lanes n = n.cancelled ≡ false → IsFlow nums lanes n

pub Orderly-later : (b : Bool) (rest : List Lane) → All (Orderly b) rest → All (Orderly true) rest
Orderly-later b [] o = tt
Orderly-later b (a ∷ rest) (o, os) = (((λ _. refl), o.1), Orderly-later b rest os)
