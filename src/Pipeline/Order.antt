-- ===== src/Pipeline/Order.antt =====
-- The order in which the consumer of the linear pipeline takes the squares.
use mathlib.Core.Path.{subst}
use go_examples.Base.{
  ℕ, ◌≡◌, refl, inl, inr, true, false, List, [], ◌∷◌, ◌++◌, map, some, arith, Option-cases,
  Bool-cases,
}
use mathlib.Core.List.{append-nil, append_assoc}
use go_examples.Pipeline.{Stage, waiting, holding, exited, squared, is_exited, send, exit}
use go_examples.Pipeline.Linear.{
  Line, start, Event, generated, gen_exit, squared_sent, square_exit, cancel, generate, leave_gen,
  consume, leave_square, step, run,
}

abbrev pub held : Stage → List ℕ
held (holding v) = v ∷ []
held _ = []

held_exited : (s : Stage) → is_exited s ≡ true → held s ≡ []
held_exited exited h = refl
held_exited waiting h = ground (arith, h)
held_exited (holding v) h = ground (arith, h)

-- What the consumer took, what the square holds, what it dropped and what is still to come are the
-- squares in order. Only a square that exits on a cancelled context drops something.
pub record InOrder (nums : List ℕ) (l : Line) : Type 0 where
  pub lost : List ℕ
  pub in_order : l.taken ++ (held l.square ++ (lost ++ map squared l.nums)) ≡ map squared nums
  pub lost_exited : is_exited l.square ≡ false → lost ≡ []
  pub lost_cancelled : l.cancelled ≡ false → lost ≡ []
  pub gen_over : l.gen_exited ≡ true → l.cancelled ≡ false → l.nums ≡ []
  pub square_over : is_exited l.square ≡ true → l.cancelled ≡ false → l.gen_exited ≡ true

module _ (nums : List ℕ) where
  generate-InOrder :
      (ns : List ℕ) (s : Stage) (l m : Line)
      → l.nums ≡ ns
      → l.square ≡ s
      → generate ns s l ≡ some m
      → InOrder nums l
      → InOrder nums m
  generate-InOrder [] s l m p q h r = ground (arith, h)
  generate-InOrder (n ∷ ns) exited l m p q h r = ground (arith, h)
  generate-InOrder (n ∷ ns) (holding v) l m p q h r = ground (arith, h)
  generate-InOrder (n ∷ ns) waiting l m p q h r = elim (Bool-cases l.gen_exited) [
    | inl t ↦ ground (arith, h, t)
    | inr t ↦
        let e : record l { nums = ns; square = holding (squared n) } ≡ m = ground (arith, h, t) in
        subst (InOrder nums) e (record {
          lost = [];
          in_order = ground (arith, r.in_order, r.lost_exited, p, q);
          lost_exited = λ _. refl;
          lost_cancelled = λ _. refl;
          gen_over = ground (arith, t);
          square_over = ground arith;
        })
  ]

  gen_exit-InOrder :
      (l : Line)
      → InOrder nums l
      → (l.cancelled ≡ false → l.nums ≡ [])
      → InOrder nums (record l { gen_exited = true })
  gen_exit-InOrder l r o = record {
    lost = r.lost;
    in_order = r.in_order;
    lost_exited = r.lost_exited;
    lost_cancelled = r.lost_cancelled;
    gen_over = λ _ c. o c;
    square_over = λ _ _. refl;
  }

  leave_gen-InOrder :
      (ns : List ℕ) (l m : Line)
      → l.nums ≡ ns
      → leave_gen ns l ≡ some m
      → InOrder nums l
      → InOrder nums m
  leave_gen-InOrder [] l m p h r = elim (Bool-cases l.gen_exited) [
    | inl t ↦ ground (arith, h, t)
    | inr t ↦
        let e : record l { gen_exited = true } ≡ m = ground (arith, h, t) in
        subst (InOrder nums) e (gen_exit-InOrder l r (λ _. p))
  ]
  leave_gen-InOrder (n ∷ ns) l m p h r = elim (Bool-cases l.gen_exited) [
    | inl t ↦ ground (arith, h, t)
    | inr t ↦ elim (Bool-cases l.cancelled) [
      | inr c ↦ ground (arith, h, t, c)
      | inl c ↦
          let e : record l { gen_exited = true } ≡ m = ground (arith, h, t, c) in
          subst (InOrder nums) e (gen_exit-InOrder l r (λ f. ground (arith, c, f)))
    ]
  ]

  consume-InOrder :
      (s : Stage) (l m : Line)
      → l.square ≡ s
      → consume (send s) l ≡ some m
      → InOrder nums l
      → InOrder nums m
  consume-InOrder waiting l m q h r = ground (arith, h)
  consume-InOrder exited l m q h r = ground (arith, h)
  consume-InOrder (holding v) l m q h r = elim (Bool-cases l.cancelled) [
    | inl t ↦ ground (arith, h, t)
    | inr t ↦
        let e : record l { square = waiting; taken = l.taken ++ v ∷ [] } ≡ m =
          ground (arith, h, t) in
        subst (InOrder nums) e (record {
          lost = [];
          in_order = ground (
            arith,
            append_assoc l.taken (v ∷ []) (map squared l.nums),
            r.in_order,
            r.lost_exited,
            q,
          );
          lost_exited = λ _. refl;
          lost_cancelled = λ _. refl;
          gen_over = r.gen_over;
          square_over = ground arith;
        })
  ]

  leave_square-InOrder :
      (s : Stage) (l m : Line)
      → l.square ≡ s
      → leave_square (exit l.gen_exited l.cancelled s) l ≡ some m
      → InOrder nums l
      → InOrder nums m
  leave_square-InOrder exited l m q h r = ground (arith, h)
  leave_square-InOrder waiting l m q h r = elim (Bool-cases l.gen_exited) [
    | inr t ↦ ground (arith, h, t)
    | inl t ↦
        let e : record l { square = exited } ≡ m = ground (arith, h, t) in
        subst (InOrder nums) e (record {
          lost = [];
          in_order = ground (arith, r.in_order, r.lost_exited, q);
          lost_exited = λ _. refl;
          lost_cancelled = λ _. refl;
          gen_over = r.gen_over;
          square_over = λ _ _. t;
        })
  ]
  leave_square-InOrder (holding v) l m q h r = elim (Bool-cases l.cancelled) [
    | inr t ↦ ground (arith, h, t)
    | inl t ↦
        let e : record l { square = exited } ≡ m = ground (arith, h, t) in
        subst (InOrder nums) e (record {
          lost = v ∷ [];
          in_order = ground (arith, r.in_order, r.lost_exited, q);
          lost_exited = ground arith;
          lost_cancelled = ground (arith, t);
          gen_over = r.gen_over;
          square_over = ground (arith, t);
        })
  ]

  cancel-InOrder : (l : Line) → InOrder nums l → InOrder nums (record l { cancelled = true })
  cancel-InOrder l r = record {
    lost = r.lost;
    in_order = r.in_order;
    lost_exited = r.lost_exited;
    lost_cancelled = ground arith;
    gen_over = ground arith;
    square_over = ground arith;
  }

  all_taken :
      (l : Line)
      → InOrder nums l
      → is_exited l.square ≡ true
      → l.cancelled ≡ false
      → l.taken ≡ map squared nums
  all_taken l r x c =
      ground
        (arith, r.in_order, held_exited l.square x, append-nil l.taken, r.square_over, r.gen_over)

  step-InOrder : (e : Event) (l m : Line) → step e l ≡ some m → InOrder nums l → InOrder nums m
  unfolding step
  step-InOrder generated l m h r = generate-InOrder l.nums l.square l m refl refl h r
  step-InOrder gen_exit l m h r = leave_gen-InOrder l.nums l m refl h r
  step-InOrder squared_sent l m h r = consume-InOrder l.square l m refl h r
  step-InOrder square_exit l m h r = leave_square-InOrder l.square l m refl h r
  step-InOrder cancel l m h r = elim (Bool-cases l.cancelled) [
    | inl t ↦ ground (arith, h, t)
    | inr t ↦
        let e : record l { cancelled = true } ≡ m = ground (arith, h, t) in
        subst (InOrder nums) e (cancel-InOrder l r)
  ]

  from-InOrder :
      (es : List Event) (l m : Line) → run es l ≡ some m → InOrder nums l → InOrder nums m
  unfolding run
  from-InOrder [] l m h r = let e : l ≡ m = ground (arith, h) in subst (InOrder nums) e r
  from-InOrder (e ∷ es) l m h r = elim (Option-cases (step e l)) [
    | inl n ↦ ground (arith, h, n)
    | inr (k, t) ↦ from-InOrder es k m (ground (arith, h, t)) (step-InOrder e l k t r)
  ]

  pub run-InOrder : (es : List Event) (l : Line) → run es (start nums) ≡ some l → InOrder nums l
  unfolding start
  run-InOrder es l h = from-InOrder es (start nums) l h (record {
    lost = [];
    in_order = refl;
    lost_exited = λ _. refl;
    lost_cancelled = λ _. refl;
    gen_over = ground arith;
    square_over = ground arith;
  })

  -- The consumer of linearPipeline takes the squares in the order of the numbers, in every
  -- interleaving: at any time a prefix of them, and all of them when its channel is closed and the
  -- context was not cancelled.
  pub linear_order :
      (es : List Event) (l : Line)
      → run es (start nums) ≡ some l
      → ((rest : List ℕ) × (l.taken ++ rest ≡ map squared nums))
        × (is_exited l.square ≡ true → l.cancelled ≡ false → l.taken ≡ map squared nums)
  linear_order es l h =
      let r = run-InOrder es l h in
      ((held l.square ++ (r.lost ++ map squared l.nums), r.in_order), λ x c. all_taken l r x c)
