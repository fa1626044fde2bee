-- ===== src/Pipeline/FanIn/Merged.antt =====
-- What the consumer of the merged pipeline has when its channel is closed.
use mathlib.Core.Path.{subst}
use go_examples.Base.{
  ℕ, zero, suc, ◌*◌, ◌<◌, ◌≡◌, refl, ap, ◌∙◌, inl, inr, Bool, true, false, List, [], ◌∷◌, ◌++◌, map,
  none, some, arith, Option-cases, Bool-cases, All, replicate, length, count, count-append,
}
use go_examples.Pipeline.{Stage, waiting, holding, exited, squared, is_exited}
use go_examples.Pipeline.FanIn.{
  Lane, new_lane, generate, Net, start, LaneEvent, generated, passed, forwarded, square_exit,
  forwarder_exit, Event, at, gen_exit, close, cancel, lane_step, lanes_step, leave_gen,
  all_forwarded, step, run,
}
use go_examples.Pipeline.FanIn.Conservation.{
  lanes_count, Orderly, lanes_step-Kept, FlowsUntilCancelled, Orderly-later,
}

-- A lane whose goroutines have exited has no event.
lane_over :
    (e : LaneEvent) (n : Net) (a : Lane)
    → a.square ≡ exited
    → a.forwarder ≡ exited
    → lane_step e n a ≡ none
unfolding lane_step
lane_over generated n a p q = over n.nums
  where
    over : (nums : List ℕ) → generate n.gen_exited nums a ≡ none
    over [] = refl
    over (x ∷ xs) = ground (arith, p)
lane_over passed n a p q = ground (arith, p)
lane_over forwarded n a p q = ground (arith, q)
lane_over square_exit n a p q = ground (arith, p)
lane_over forwarder_exit n a p q = ground (arith, q)

exited_is : (s : Stage) → is_exited s ≡ true → s ≡ exited
exited_is exited h = refl
exited_is waiting h = ground (arith, h)
exited_is (holding v) h = ground (arith, h)

lanes_over :
    (k : ℕ) (e : LaneEvent) (n : Net) (rest : List Lane)
    → All (Orderly n.gen_exited) rest
    → all_forwarded rest ≡ true
    → lanes_step k e n rest ≡ none
unfolding lanes_step
lanes_over k e n [] o h = refl
lanes_over zero e n (a ∷ rest) (o, os) h =
    let f : is_exited a.forwarder ≡ true = ground (arith, h) in
    ground (arith, lane_over e n a (exited_is a.square (o.1 f)) (exited_is a.forwarder f))
lanes_over (suc k) e n (a ∷ rest) (o, os) h =
    ground (arith, lanes_over k e n rest os (ground (arith, h)))

module _ (nums : List ℕ) (lanes : ℕ) where
  step-IsFlow :
      (e : Event) (n m : Net)
      → step e n ≡ some m
      → FlowsUntilCancelled nums lanes n
      → FlowsUntilCancelled nums lanes m
  unfolding step
  step-IsFlow (at k e) n m h f = elim (Option-cases (lanes_step k e n n.lanes)) [
    | inl q ↦ ground (arith, h, q)
    | inr ((x, rest), q) ↦
        let p : record n { nums = x.nums; lanes = rest; taken = n.taken ++ x.received } ≡ m =
          ground (arith, h, q) in
        subst (FlowsUntilCancelled nums lanes) p λ c.
          let r = f c in
          let (i, j, l, z) = lanes_step-Kept k e n n.lanes (x, rest) c r.orderly q in
          record {
            values = λ v. omega (arith, i v, r.values v, count-append v n.taken x.received);
            orderly = j;
            gen_over = λ g. l g ∙ r.gen_over g;
            width = z ∙ r.width;
            shut = λ s. ground (arith, lanes_over k e n n.lanes r.orderly (r.shut s), q);
          }
  ]
  step-IsFlow gen_exit n m h f = elim (Bool-cases n.gen_exited) [
    | inl t ↦ ground (arith, h, t)
    | inr t ↦ elim (Bool-cases (leave_gen n.nums n)) [
      | inr q ↦ ground (arith, h, t, q)
      | inl q ↦
          let p : record n { gen_exited = true } ≡ m = ground (arith, h, t, q) in
          subst (FlowsUntilCancelled nums lanes) p λ c.
            let r = f c in
            record {
              values = r.values;
              orderly = Orderly-later n.gen_exited n.lanes r.orderly;
              gen_over = λ _. left_none n.nums q c;
              width = r.width;
              shut = r.shut;
            }
    ]
  ]
    where
      left_none : (vs : List ℕ) → leave_gen vs n ≡ true → n.cancelled ≡ false → vs ≡ []
      left_none [] q c = refl
      left_none (v ∷ vs) q c = ground (arith, q, c)
  step-IsFlow close n m h f = elim (Bool-cases n.closed) [
    | inl t ↦ ground (arith, h, t)
    | inr t ↦ elim (Bool-cases (all_forwarded n.lanes)) [
      | inr q ↦ ground (arith, h, t, q)
      | inl q ↦
          let p : record n { closed = true } ≡ m = ground (arith, h, t, q) in
          subst (FlowsUntilCancelled nums lanes) p λ c.
            let r = f c in
            record {
              values = r.values;
              orderly = r.orderly;
              gen_over = r.gen_over;
              width = r.width;
              shut = λ _. q;
            }
    ]
  ]
  step-IsFlow cancel n m h f = elim (Bool-cases n.cancelled) [
    | inl t ↦ ground (arith, h, t)
    | inr t ↦
        let p : record n { cancelled = true } ≡ m = ground (arith, h, t) in
        subst (FlowsUntilCancelled nums lanes) p λ c. ground (arith, c)
  ]

  from-IsFlow :
      (es : List Event) (n m : Net)
      → run es n ≡ some m
      → FlowsUntilCancelled nums lanes n
      → FlowsUntilCancelled nums lanes m
  unfolding run
  from-IsFlow [] n m h f =
      let e : n ≡ m = ground (arith, h) in subst (FlowsUntilCancelled nums lanes) e f
  from-IsFlow (e ∷ es) n m h f = elim (Option-cases (step e n)) [
    | inl q ↦ ground (arith, h, q)
    | inr (k, t) ↦ from-IsFlow es k m (ground (arith, h, t)) (step-IsFlow e n k t f)
  ]

new_lanes : (k v : ℕ) → lanes_count v (replicate k new_lane) ≡ 0
new_lanes zero v = refl
new_lanes (suc k) v = omega (arith, new_lanes k v)

new-Orderly : (k : ℕ) → All (Orderly false) (replicate k new_lane)
new-Orderly zero = tt
new-Orderly (suc k) = (ground arith, new-Orderly k)

new_width : (k : ℕ) → length (replicate k new_lane) ≡ k
new_width zero = refl
new_width (suc k) = ap suc (new_width k)

-- A closed merge has no value left in its lanes, and gen has exited.
drained :
    (b : Bool) (rest : List Lane)
    → All (Orderly b) rest
    → all_forwarded rest ≡ true
    → (v : ℕ) → lanes_count v rest ≡ 0
drained b [] o h v = refl
drained b (a ∷ rest) (o, os) h v =
    let f : is_exited a.forwarder ≡ true = ground (arith, h) in
    let p = exited_is a.square (o.1 f) in
    let q = exited_is a.forwarder f in ground (arith, p, q, drained b rest os (ground (arith, h)) v)

gen_was_over :
    (b : Bool) (rest : List Lane)
    → 0 < length rest
    → All (Orderly b) rest
    → all_forwarded rest ≡ true
    → b ≡ true
gen_was_over b [] l o h = ground (arith, l)
gen_was_over b (a ∷ rest) l (o, os) h = o.0 (o.1 (ground (arith, h)))

-- Fan-in over one square or more: however the goroutines interleave, when the merged channel is
-- closed and the context was not cancelled, the consumer has taken each square as often as the numbers give it,
-- in whatever order.
pub merged_squares :
    (nums : List ℕ) (lanes : ℕ) (es : List Event) (n : Net)
    → 0 < lanes
    → run es (start nums lanes) ≡ some n
    → n.closed ≡ true
    → n.cancelled ≡ false
    → (v : ℕ) → count v n.taken ≡ count v (map (λ m. m * m) nums)
unfolding start
merged_squares nums lanes es n l h s c v =
    let r =
      from-IsFlow nums lanes es (start nums lanes) n h
        (λ _. record {
          values = λ v. omega (arith, new_lanes lanes v);
          orderly = new-Orderly lanes;
          gen_over = ground arith;
          width = new_width lanes;
          shut = ground arith;
        })
        c in
    let f = r.shut s in
    let over =
      r.gen_over (gen_was_over n.gen_exited n.lanes (omega (arith, r.width)) r.orderly f) in
    omega (
      arith,
      r.values v,
      drained n.gen_exited n.lanes r.orderly f v,
      ap (λ x. count v (map squared x)) over,
    )
