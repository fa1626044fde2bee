-- ===== src/FanOut.antt =====
-- examples/concurrency/fan-out-timeout/main.go: each worker races its inner goroutine against a timeout. A step is
-- the end of an inner goroutine, which sends to the buffered `done`, or what the select of a worker yields.
pub mod Collected
mod Tests
use go_examples.Base.{
  ℕ, zero, suc, ◌+◌, Bool, true, false, List, [], ◌∷◌, ◌++◌, Option, none, some, if◌then◌else◌,
}

-- `result`, less its text
pub record Answer : Type 0 where
  pub id : ℕ
  pub timed_out : Bool

-- In the select with `done` empty or full; after the select with the result; after the timeout, with `done` empty
-- or full.
pub data Race : Type 0 where
  asleep ready finished late late_ready : Race

pub record FanOutWorker : Type 0 where
  pub id : ℕ
  pub race : Race

pub record FanOutState : Type 0 where
  pub workers : List FanOutWorker
  pub out : List Answer

pub data Choice : Type 0 where
  inner_sends done_selected timeout_selected : Choice

pub record RaceStep : Type 0 where
  pub race : Race
  pub answer : Option Bool

-- One step of a worker and its inner goroutine, and the `timedOut` of what it sends to `out`.
unfoldable pub race_step : Choice → Race → Option RaceStep
race_step inner_sends asleep = some (record { race = ready; answer = none })
race_step inner_sends late = some (record { race = late_ready; answer = none })
race_step done_selected ready = some (record { race = finished; answer = some false })
race_step timeout_selected asleep = some (record { race = late; answer = some true })
race_step timeout_selected ready = some (record { race = late_ready; answer = some true })
race_step _ _ = none

abbrev pub answers : ℕ → Option Bool → List Answer
answers id none = []
answers id (some b) = record { id = id; timed_out = b } ∷ []

abbrev pub moved :
    FanOutWorker → List FanOutWorker → Option RaceStep → Option (List FanOutWorker × List Answer)
moved w ws none = none
moved w ws (some r) = some (record w { race = r.race } ∷ ws, answers w.id r.answer)

abbrev pub behind :
    FanOutWorker
    → Option (List FanOutWorker × List Answer)
    → Option (List FanOutWorker × List Answer)
behind w none = none
behind w (some (ws, a)) = some (w ∷ ws, a)

abbrev pub race_at : ℕ → Choice → List FanOutWorker → Option (List FanOutWorker × List Answer)
race_at k c [] = none
race_at zero c (w ∷ ws) = moved w ws (race_step c w.race)
race_at (suc k) c (w ∷ ws) = behind w (race_at k c ws)

abbrev pub sent : FanOutState → Option (List FanOutWorker × List Answer) → Option FanOutState
sent s none = none
sent s (some (ws, a)) = some (record { workers = ws; out = s.out ++ a })

unfoldable pub step : ℕ × Choice → FanOutState → Option FanOutState
unfolding race_step
step (k, c) s = sent s (race_at k c s.workers)

unfoldable pub run : List (ℕ × Choice) → FanOutState → Option FanOutState
unfolding step
run [] s = some s
run (e ∷ es) s = elim (step e s) [ none ↦ none | some t ↦ run es t ]

-- Workers i, i + 1, ..., n in all.
abbrev pub workers_from : ℕ → ℕ → List FanOutWorker
workers_from i zero = []
workers_from i (suc n) = record { id = i; race = asleep } ∷ workers_from (suc i) n

unfoldable pub start : ℕ → FanOutState
start n = record { workers = workers_from 1 n; out = [] }

abbrev pub is_answered : Race → Bool
is_answered asleep = false
is_answered ready = false
is_answered _ = true

-- What `wg.Wait` waits for.
abbrev pub all_answered : List FanOutWorker → Bool
all_answered [] = true
all_answered (w ∷ ws) = if is_answered w.race then all_answered ws else false

-- The count of the last loop of main.
abbrev pub timed_out_count : List Answer → ℕ
timed_out_count [] = 0
timed_out_count (a ∷ rest) = (if a.timed_out then 1 else 0) + timed_out_count rest
