-- ===== src/JobQueue.antt =====
-- examples/redis/main.go: requests enqueue a job for an engine and wait for its result. The model is of one
-- engine; each engine has keys of its own. A step is one command of a goroutine, in any order. A client sends a
-- command again when its reply is lost, so the server may execute it more than once, and also when it fails at last.
pub mod Server
pub mod Invariant
pub mod Commands
pub mod Steps
pub mod Answers
mod Tests
use go_examples.Base.{
  ℕ, ◌+◌, ◌==◌, ◌≡◌, Bool, true, false, List, [], ◌∷◌, ◌++◌, Option, none, some, if◌then◌else◌,
}
use go_examples.JobQueue.Server.{Key, counter_key, tasks, results_of, Queues}

-- A goroutine of `handleQuote` in `enqueueAndWait`: before INCR, with its queueID before RPUSH, waiting for the
-- result, and after it has returned a result or an error.
pub data Request : Type 0 where
  ready : Request
  numbered queued : ℕ → Request
  answered : ℕ → ℕ → Request
  refused : Request

pub data Engine : Type 0 where
  idle : Engine
  working : ℕ → ℕ → Engine  -- jobID and delay

-- A `repeated` event is an execution of the next command whose reply is lost.
pub data Event : Type 0 where
  incremented pushed : ℕ → Event
  increment_fails push_fails : ℕ → Event
  result_popped pop_fails : ℕ → Event  -- pop_fails is for the timeout too
  request_repeated : ℕ → Event
  task_popped : ℕ → Event  -- with the delay
  result_pushed result_fails engine_repeated : Event

module _ (q : Queues) where
  open q use {Store, incr, rpush, lpop}

  -- Requests are told apart by a number. `delays` is no state of the program: it has the jobs that the engine
  -- has taken, each with its delay.
  pub record System : Type 0 where
    pub store : Store
    pub requests : ℕ → Request
    pub engine : Engine
    pub delays : List (ℕ × ℕ)

  abbrev pub start : Store → System
  start s = record { store = s; requests = λ i. ready; engine = idle; delays = [] }

  abbrev pub set_request : ℕ → Request → System → System
  set_request i r s = record s { requests = λ j. if j == i then r else s.requests j }

  abbrev pub take_id : ℕ → Request → System → Option System
  take_id i ready s =
      let (store, id) = incr counter_key s.store in
      some (set_request i (numbered id) (record s { store = store }))
  take_id i _ s = none

  abbrev pub fail_increment : ℕ → Request → System → Option System
  fail_increment i ready s = some (set_request i refused s)
  fail_increment i _ s = none

  abbrev pub push : ℕ → Request → System → Option System
  push i (numbered id) s =
      some (set_request i (queued id) (record s { store = rpush tasks id s.store }))
  push i _ s = none

  abbrev pub fail_push : ℕ → Request → System → Option System
  fail_push i (numbered id) s = some (set_request i refused s)
  fail_push i _ s = none

  abbrev pub popped : ℕ → ℕ → System → Store × Option ℕ → Option System
  popped i id s (store, none) = none
  popped i id s (store, some v) = some (set_request i (answered id v) (record s { store = store }))

  abbrev pub pop_result : ℕ → Request → System → Option System
  pop_result i (queued id) s = popped i id s (lpop (results_of id) s.store)
  pop_result i _ s = none

  abbrev pub fail_pop : ℕ → Request → System → Option System
  fail_pop i (queued id) s = some (set_request i refused s)
  fail_pop i _ s = none

  abbrev pub taken : ℕ → System → Store × Option ℕ → Option System
  taken delay s (store, none) = none
  taken delay s (store, some job) =
      some
        (record s { store = store; engine = working job delay; delays = (job, delay) ∷ s.delays })

  abbrev pub pop_task : ℕ → Engine → System → Option System
  pop_task delay idle s = taken delay s (lpop tasks s.store)
  pop_task delay (working job d) s = none

  abbrev pub push_result : Engine → System → Option System
  push_result idle s = none
  push_result (working job d) s =
      some (record s { store = rpush (results_of job) d s.store; engine = idle })

  -- A failed push is only logged.
  abbrev pub fail_result : Engine → System → Option System
  fail_result idle s = none
  fail_result (working job d) s = some (record s { engine = idle })

  abbrev pub repeat_request : Request → System → Option System
  repeat_request ready s = some (record s { store = (incr counter_key s.store).0 })
  repeat_request (numbered id) s = some (record s { store = rpush tasks id s.store })
  repeat_request (queued id) s = some (record s { store = (lpop (results_of id) s.store).0 })
  repeat_request _ s = none

  abbrev pub repeat_engine : Engine → System → Option System
  repeat_engine idle s = some (record s { store = (lpop tasks s.store).0 })
  repeat_engine (working job d) s = some (record s { store = rpush (results_of job) d s.store })

  unfoldable pub step : Event → System → Option System
  step (incremented i) s = take_id i (s.requests i) s
  step (pushed i) s = push i (s.requests i) s
  step (increment_fails i) s = fail_increment i (s.requests i) s
  step (push_fails i) s = fail_push i (s.requests i) s
  step (result_popped i) s = pop_result i (s.requests i) s
  step (pop_fails i) s = fail_pop i (s.requests i) s
  step (request_repeated i) s = repeat_request (s.requests i) s
  step (task_popped delay) s = pop_task delay s.engine s
  step result_pushed s = push_result s.engine s
  step result_fails s = fail_result s.engine s
  step engine_repeated s = repeat_engine s.engine s

  unfoldable pub run : List Event → System → Option System
  unfolding step
  run [] s = some s
  run (e ∷ es) s = elim (step e s) [ none ↦ none | some t ↦ run es t ]
