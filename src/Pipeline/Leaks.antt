-- ===== src/Pipeline/Leaks.antt =====
-- No goroutine of the linear pipeline leaks, with or without the early cancellation.
use go_examples.Base.{
  ℕ, ◌+◌, ◌*◌, ◌≤◌, ◌<◌, ◌≡◌, refl, ◌⊎◌, inl, inr, Bool, true, false, List, [], ◌∷◌, ◌++◌, none,
  some, arith, if◌then◌else◌, length, Option-cases, Bool-cases,
}
use go_examples.Pipeline.{Stage, waiting, holding, exited, squared, is_exited, running, send, exit}
use go_examples.Pipeline.Linear.{
  Line, start, Event, generated, gen_exit, squared_sent, square_exit, cancel, generate, leave_gen,
  consume, leave_square, step, run,
}
use go_examples.Pipeline.Order.{held, run-InOrder}

-- The goroutines that have not exited, which `wg.Wait()` waits for.
abbrev pub goroutines : Line → ℕ
goroutines l = (if l.gen_exited then 0 else 1) + running l.square

abbrev measure : Line → ℕ
measure l =
    2 * length l.nums + length (held l.square) + goroutines l + (if l.cancelled then 0 else 1)

generate_less :
    (ns : List ℕ) (s : Stage) (l m : Line)
    → l.nums ≡ ns
    → l.square ≡ s
    → generate ns s l ≡ some m
    → measure m < measure l
generate_less [] s l m p q h = ground (arith, h)
generate_less (n ∷ ns) exited l m p q h = ground (arith, h)
generate_less (n ∷ ns) (holding v) l m p q h = ground (arith, h)
generate_less (n ∷ ns) waiting l m p q h = ground (arith, h, p, q)

leave_gen_less : (ns : List ℕ) (l m : Line) → leave_gen ns l ≡ some m → measure m < measure l
leave_gen_less [] l m h = ground (arith, h)
leave_gen_less (n ∷ ns) l m h = ground (arith, h)

consume_less :
    (s : Stage) (l m : Line) → l.square ≡ s → consume (send s) l ≡ some m → measure m < measure l
consume_less waiting l m q h = ground (arith, h)
consume_less exited l m q h = ground (arith, h)
consume_less (holding v) l m q h = ground (arith, h, q)

leave_square_less :
    (s : Stage) (l m : Line)
    → l.square ≡ s
    → leave_square (exit l.gen_exited l.cancelled s) l ≡ some m
    → measure m < measure l
leave_square_less exited l m q h = ground (arith, h)
leave_square_less waiting l m q h = ground (arith, h, q)
leave_square_less (holding v) l m q h = ground (arith, h, q)

step_less : (e : Event) (l m : Line) → step e l ≡ some m → measure m < measure l
unfolding step
step_less generated l m h = generate_less l.nums l.square l m refl refl h
step_less gen_exit l m h = leave_gen_less l.nums l m h
step_less squared_sent l m h = consume_less l.square l m refl h
step_less square_exit l m h = leave_square_less l.square l m refl h
step_less cancel l m h = ground (arith, h)

run_less : (es : List Event) (l m : Line) → run es l ≡ some m → length es + measure m ≤ measure l
unfolding run
run_less [] l m h = ground (arith, h)
run_less (e ∷ es) l m h = elim (Option-cases (step e l)) [
  | inl n ↦ ground (arith, h, n)
  | inr (k, t) ↦
      let i = run_less es k m (ground (arith, h, t)) in let j = step_less e l k t in omega arith
]

abbrev pub is_cancel : Event → Bool
is_cancel cancel = true
is_cancel _ = false

-- Some goroutine can go on, or the consumer receive, without a cancellation.
abbrev pub CanStep : Line → Type 0
CanStep l = (e : Event) × (m : Line) × (is_cancel e ≡ false) × (step e l ≡ some m)

gen_moves :
    (ns : List ℕ) (l : Line) → l.nums ≡ ns → l.gen_exited ≡ false → l.square ≡ waiting → CanStep l
unfolding step
gen_moves [] l p t q = (gen_exit, record l { gen_exited = true }, refl, ground (arith, p, t))
gen_moves (n ∷ ns) l p t q =
    (generated, record l { nums = ns; square = holding (squared n) }, refl, ground (arith, p, t, q))

gen_leaves :
    (ns : List ℕ) (l : Line) → l.nums ≡ ns → l.gen_exited ≡ false → l.cancelled ≡ true → CanStep l
unfolding step
gen_leaves [] l p t c = (gen_exit, record l { gen_exited = true }, refl, ground (arith, p, t))
gen_leaves (n ∷ ns) l p t c =
    (gen_exit, record l { gen_exited = true }, refl, ground (arith, p, t, c))

square_moves : (s : Stage) (l : Line) → l.square ≡ s → is_exited s ≡ false → CanStep l
unfolding step
square_moves exited l q h = ground (arith, h)
square_moves (holding v) l q h = elim (Bool-cases l.cancelled) [
  | inl c ↦ (square_exit, record l { square = exited }, refl, ground (arith, q, c))
  | inr c ↦ (
    squared_sent,
    record l { square = waiting; taken = l.taken ++ v ∷ [] },
    refl,
    ground (arith, q, c),
  )
]
square_moves waiting l q h = elim (Bool-cases l.gen_exited) [
  | inl t ↦ (square_exit, record l { square = exited }, refl, ground (arith, q, t))
  | inr t ↦ gen_moves l.nums l refl t q
]

stage_left :
    (s : Stage) (b : Bool)
    → 0 < (if b then 0 else 1) + running s
    → (is_exited s ≡ false) ⊎ ((is_exited s ≡ true) × (b ≡ false))
stage_left waiting b h = inl refl
stage_left (holding v) b h = inl refl
stage_left exited b h = inr (refl, ground (arith, h))

goroutines_left :
    (l : Line)
    → 0 < goroutines l
    → (is_exited l.square ≡ false) ⊎ ((is_exited l.square ≡ true) × (l.gen_exited ≡ false))
goroutines_left l h = stage_left l.square l.gen_exited h

no_receive : (l : Line) → l.cancelled ≡ true → step squared_sent l ≡ none
unfolding step
no_receive l c = ground (arith, c)

-- No goroutine leaks, whether the consumer reads to the end or cancels: however the goroutines
-- interleave, there are at most two events for each number and three more, and while a goroutine has
-- not exited, one of them can go on or the consumer receive, without a cancellation; after a cancellation the
-- consumer receives no more.
pub no_leaks :
    (nums : List ℕ) (es : List Event) (l : Line)
    → run es (start nums) ≡ some l
    → (length es ≤ 2 * length nums + 3)
      × (0 < goroutines l → CanStep l)
      × (l.cancelled ≡ true → step squared_sent l ≡ none)
unfolding start
no_leaks nums es l h =
    let r = run-InOrder nums es l h in
    let less = run_less es (start nums) l h in
    (
      omega (arith, less),
      λ g. elim (goroutines_left l g) [
        | inl q ↦ square_moves l.square l refl q
        | inr (q, t) ↦ elim (Bool-cases l.cancelled) [
          | inl c ↦ gen_leaves l.nums l refl t c
          | inr c ↦ ground (arith, r.square_over q c, t)
        ]
      ],
      λ c. no_receive l c,
    )
