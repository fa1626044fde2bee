-- ===== src/Pipeline/Linear.antt =====
-- linearPipeline and earlyCancellation: gen, one square and the consumer.
use go_examples.Base.{ℕ, Bool, true, false, List, [], ◌∷◌, ◌++◌, Option, none, some, if◌then◌else◌}
use go_examples.Pipeline.{Stage, waiting, holding, squared, send, exit}

-- `cancelled` is the end of the consumer's loop as well: it breaks before it cancels.
pub record Line : Type 0 where
  pub nums : List ℕ
  pub gen_exited : Bool
  pub square : Stage
  pub taken : List ℕ
  pub cancelled : Bool

unfoldable pub start : List ℕ → Line
start nums = record {
  nums = nums;
  gen_exited = false;
  square = waiting;
  taken = [];
  cancelled = false;
}

pub data Event : Type 0 where
  generated gen_exit squared_sent square_exit cancel : Event

-- gen sends its next value.
abbrev pub generate : List ℕ → Stage → Line → Option Line
generate (n ∷ nums) waiting l =
    if l.gen_exited then none else some (record l { nums = nums; square = holding (squared n) })
generate _ _ l = none

-- gen returns at the end of its values, or in its select.
abbrev pub leave_gen : List ℕ → Line → Option Line
leave_gen [] l = if l.gen_exited then none else some (record l { gen_exited = true })
leave_gen (n ∷ nums) l =
    if l.gen_exited
    then none
    else if l.cancelled
    then some (record l { gen_exited = true })
    else none

-- The consumer receives.
abbrev pub consume : Option (ℕ × Stage) → Line → Option Line
consume none l = none
consume (some (v, s)) l =
    if l.cancelled then none else some (record l { square = s; taken = l.taken ++ v ∷ [] })

abbrev pub leave_square : Option Stage → Line → Option Line
leave_square none l = none
leave_square (some s) l = some (record l { square = s })

unfoldable pub step : Event → Line → Option Line
step generated l = generate l.nums l.square l
step gen_exit l = leave_gen l.nums l
step squared_sent l = consume (send l.square) l
step square_exit l = leave_square (exit l.gen_exited l.cancelled l.square) l
step cancel l = if l.cancelled then none else some (record l { cancelled = true })

unfoldable pub run : List Event → Line → Option Line
unfolding step
run [] l = some l
run (e ∷ es) l = elim (step e l) [ none ↦ none | some l' ↦ run es l' ]
