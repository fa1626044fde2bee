-- ===== src/Pool.antt =====
-- examples/pool/pool.go. The goroutines of `Run` are interleaved: an event is the rendezvous of
-- `p.tasksChan <- task` with a worker, or a worker's end of its task. The slice Tasks is a size
-- and a function of the index; of a task's function only the error it returns matters.
pub mod Interleavings
pub mod Progress
mod Tests
use Prim.Native.String.{String}
use go_examples.Base.{
  ℕ, zero, suc, ◌+◌, ◌-◌, Bool, true, false, not, List, [], ◌∷◌, Option, none, some, ltb, ◌==◌,
  is_some, if◌then◌else◌,
}

pub record Task : Type 0 where
  pub error : Option String  -- Err
  pub returns : Option String  -- what `f` returns

unfoldable pub new_task : Option String → Task
new_task e = record { error = none; returns = e }

-- The pool while `Run` runs: the tasks sent so far, the workers that wait on the channel, the
-- tasks that the other workers have, and the counter of the WaitGroup.
pub record Pool : Type 0 where
  pub size : ℕ
  pub tasks : ℕ → Task
  pub sent : ℕ
  pub idle : ℕ
  pub busy : List ℕ
  pub wg : ℕ

-- `NewPool`, with the workers started and the tasks added to the WaitGroup.
unfoldable pub new_pool : ℕ → (ℕ → Option String) → ℕ → Pool
unfolding new_task
new_pool size f concurrency = record {
  size = size;
  tasks = λ i. new_task (f i);
  sent = 0;
  idle = concurrency;
  busy = [];
  wg = size;
}

-- `Task.Run` of the task `i`
unfoldable pub run_task : ℕ → Pool → Pool
run_task i p = record p {
  tasks = λ j. if j == i then record (p.tasks j) { error = (p.tasks j).returns } else p.tasks j;
  wg = p.wg - 1;
}

unfoldable pub has_errors_below : ℕ → (ℕ → Task) → Bool
has_errors_below zero tasks = false
has_errors_below (suc n) tasks =
    let rest = has_errors_below n (λ i. tasks (suc i)) in
    if is_some (tasks 0).error then true else rest

unfoldable pub has_errors : Pool → Bool
unfolding has_errors_below
has_errors p = has_errors_below p.size p.tasks

-- The place `k` of a list, with what remains without it.
abbrev pub pick : ℕ → List ℕ → Option (ℕ × List ℕ)
pick k [] = none
pick zero (i ∷ is) = some (i, is)
pick (suc k) (i ∷ is) = elim (pick k is) [ none ↦ none | some (j, js) ↦ some (j, i ∷ js) ]

-- The channel hands the next task to a waiting worker.
abbrev pub hand : ℕ → Pool → Option Pool
hand zero p = none
hand (suc idle) p =
    if ltb p.sent p.size
    then some (record p { sent = p.sent + 1; idle = idle; busy = p.sent ∷ p.busy })
    else none

-- A worker ends its task and waits on the channel again.
abbrev pub end_task : Pool → Option (ℕ × List ℕ) → Option Pool
end_task p none = none
end_task p (some (i, is)) = some (record (run_task i p) { busy = is; idle = p.idle + 1 })

pub data Event : Type 0 where
  handed : Event
  ended : ℕ → Event

unfoldable pub step : Event → Pool → Option Pool
unfolding run_task
step handed p = hand p.idle p
step (ended k) p = end_task p (pick k p.busy)

unfoldable pub run : List Event → Pool → Option Pool
unfolding step
run [] p = some p
run (e ∷ es) p = elim (step e p) [ none ↦ none | some p' ↦ run es p' ]

-- `Run` returns: every task is sent and `wg.Wait()` sees zero.
abbrev pub returned : Pool → Bool
returned p = if p.sent == p.size then p.wg == 0 else false
