-- ===== src/Pipeline.antt =====
-- examples/concurrency/pipeline/main.go. The goroutines are interleaved; a rendezvous on an unbuffered
-- channel is one event, and so is the exit of a goroutine, which closes its channel. `wg` counts
-- the goroutines that have not exited. Linear is gen -> square -> the consumer, FanIn is gen -> some
-- squares -> merge -> the consumer.
pub mod Linear
pub mod Order
pub mod Leaks
pub mod FanIn
mod Tests
use go_examples.Base.{
  ℕ, ◌+◌, ◌*◌, Bool, true, false, List, [], ◌∷◌, ◌++◌, Option, none, some, if◌then◌else◌,
}

-- A goroutine of `square` or `merge`: in `range in`, in the select with its value, or exited.
pub data Stage : Type 0 where
  waiting exited : Stage
  holding : ℕ → Stage

abbrev pub squared : ℕ → ℕ
squared n = n * n

abbrev pub is_exited : Stage → Bool
is_exited exited = true
is_exited _ = false

abbrev pub running : Stage → ℕ
running exited = 0
running _ = 1

-- The `range` receives a value.
abbrev pub receive : ℕ → Stage → Option Stage
receive v waiting = some (holding v)
receive v _ = none

-- The select sends the value.
abbrev pub send : Stage → Option (ℕ × Stage)
send (holding v) = some (v, waiting)
send _ = none

-- The goroutine exits: its input is closed, or it holds a value and the context is done. A
-- goroutine that waits does not look at the context.
abbrev pub exit : Bool → Bool → Stage → Option Stage
exit closed cancelled waiting = if closed then some exited else none
exit closed cancelled (holding v) = if cancelled then some exited else none
exit closed cancelled exited = none
