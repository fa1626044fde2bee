-- ===== src/Pipeline/FanIn.antt =====
-- fanInPipeline: gen, some squares that read the same channel, a forwarder of merge for each, the
-- goroutine that closes, and the consumer.
pub mod Conservation
pub mod Merged
use go_examples.Base.{
  ℕ, zero, suc, ◌+◌, Bool, true, false, List, [], ◌∷◌, ◌++◌, Option, none, some, if◌then◌else◌,
  replicate,
}
use go_examples.Pipeline.{
  Stage, waiting, holding, exited, squared, is_exited, running, receive, send, exit,
}

-- A square and the forwarder that reads its channel.
pub record Lane : Type 0 where
  pub square : Stage
  pub forwarder : Stage

abbrev pub new_lane : Lane
new_lane = record { square = waiting; forwarder = waiting }

pub record Net : Type 0 where
  pub nums : List ℕ
  pub gen_exited : Bool
  pub lanes : List Lane
  pub closed : Bool  -- the output of merge
  pub taken : List ℕ
  pub cancelled : Bool

unfoldable pub start : List ℕ → ℕ → Net
start nums lanes = record {
  nums = nums;
  gen_exited = false;
  lanes = replicate lanes new_lane;
  closed = false;
  taken = [];
  cancelled = false;
}

-- The events of a lane, and those of the other goroutines.
pub data LaneEvent : Type 0 where
  generated passed forwarded square_exit forwarder_exit : LaneEvent

pub data Event : Type 0 where
  at : ℕ → LaneEvent → Event
  gen_exit close cancel : Event

-- What happened at a lane: the values gen has left, the lane, and what the consumer received.
pub record Moved : Type 0 where
  pub nums : List ℕ
  pub lane : Lane
  pub received : List ℕ

abbrev pub pass : Option (ℕ × Stage) → List ℕ → Lane → Option Moved
pass none nums a = none
pass (some (v, s)) nums a = elim (receive v a.forwarder) [
  | none ↦ none
  | some f ↦
      some (record { nums = nums; lane = record { square = s; forwarder = f }; received = [] })
]

abbrev pub generate : Bool → List ℕ → Lane → Option Moved
generate gen_exited [] a = none
generate gen_exited (n ∷ nums) a =
    if gen_exited then none else elim (receive (squared n) a.square) [
      | none ↦ none
      | some s ↦ some (record { nums = nums; lane = record a { square = s }; received = [] })
    ]

abbrev pub forward : Bool → Option (ℕ × Stage) → List ℕ → Lane → Option Moved
forward cancelled none nums a = none
forward cancelled (some (v, f)) nums a =
    if cancelled
    then none
    else some (record { nums = nums; lane = record a { forwarder = f }; received = v ∷ [] })

abbrev pub quiet : List ℕ → Option Lane → Option Moved
quiet nums none = none
quiet nums (some a) = some (record { nums = nums; lane = a; received = [] })

abbrev pub exit_square : Option Stage → Lane → Option Lane
exit_square none a = none
exit_square (some s) a = some (record a { square = s })

abbrev pub exit_forwarder : Option Stage → Lane → Option Lane
exit_forwarder none a = none
exit_forwarder (some f) a = some (record a { forwarder = f })

unfoldable pub lane_step : LaneEvent → Net → Lane → Option Moved
lane_step generated n a = generate n.gen_exited n.nums a
lane_step passed n a = pass (send a.square) n.nums a
lane_step forwarded n a = forward n.cancelled (send a.forwarder) n.nums a
lane_step square_exit n a = quiet n.nums (exit_square (exit n.gen_exited n.cancelled a.square) a)
lane_step forwarder_exit n a =
    quiet n.nums (exit_forwarder (exit (is_exited a.square) n.cancelled a.forwarder) a)

-- The event at one of the lanes.
unfoldable pub lanes_step : ℕ → LaneEvent → Net → List Lane → Option (Moved × List Lane)
unfolding lane_step
lanes_step k e n [] = none
lanes_step zero e n (a ∷ rest) = elim (lane_step e n a) [
  | none ↦ none
  | some m ↦ some (m, m.lane ∷ rest)
]
lanes_step (suc k) e n (a ∷ rest) = elim (lanes_step k e n rest) [
  | none ↦ none
  | some (m, bs) ↦ some (m, a ∷ bs)
]

abbrev pub leave_gen : List ℕ → Net → Bool
leave_gen [] n = true
leave_gen (v ∷ vs) n = n.cancelled

abbrev pub all_forwarded : List Lane → Bool
all_forwarded [] = true
all_forwarded (a ∷ rest) = if is_exited a.forwarder then all_forwarded rest else false

unfoldable pub step : Event → Net → Option Net
unfolding lanes_step
step (at k e) n = elim (lanes_step k e n n.lanes) [
  | none ↦ none
  | some (m, rest) ↦ some (record n { nums = m.nums; lanes = rest; taken = n.taken ++ m.received })
]
step gen_exit n =
    if n.gen_exited
    then none
    else if leave_gen n.nums n
    then some (record n { gen_exited = true })
    else none
step close n =
    if n.closed
    then none
    else if all_forwarded n.lanes
    then some (record n { closed = true })
    else none
step cancel n = if n.cancelled then none else some (record n { cancelled = true })

unfoldable pub run : List Event → Net → Option Net
unfolding step
run [] n = some n
run (e ∷ es) n = elim (step e n) [ none ↦ none | some m ↦ run es m ]
