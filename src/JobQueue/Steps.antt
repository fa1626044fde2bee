-- ===== src/JobQueue/Steps.antt =====
-- Every step keeps the system sound.
use go_examples.Base.{ℕ, ◌≡◌, refl, Option, none, some, arith}
use go_examples.JobQueue.Server.{counter_key, tasks, results_of, Queues}
use go_examples.JobQueue.{
  Request, ready, numbered, queued, answered, refused, Engine, idle, working, System, popped, Event,
  incremented, increment_fails, pushed, push_fails, result_popped, pop_fails, request_repeated,
  engine_repeated, fail_result, repeat_request, repeat_engine, task_popped, result_pushed,
  result_fails, take_id, fail_increment, push, fail_push, pop_result, fail_pop, taken, pop_task,
  push_result, step,
}
use go_examples.JobQueue.Invariant.{IsSound, set_request-IsSound, refuse-IsSound}
use go_examples.JobQueue.Commands.{
  incr-IsSound, push-IsSound, pop_task-IsSound, lose_task-IsSound, lose_result-IsSound,
  popped_genuine, push_result-IsSound, rest-IsSound,
}

module _ (q : Queues) where
  open q use {Store, counter, entries, incr, rpush, lpop, incr-reply, counter-incr}

  -- A step that is taken leads to a sound system.
  abbrev pub Sound : Option (System q) → Type 0
  Sound none = Unit
  Sound (some t) = IsSound q t

  take_id-Sound : (i : ℕ) (r : Request) (s : System q) → IsSound q s → Sound (take_id q i r s)
  take_id-Sound i ready s h =
      let id = (incr counter_key s.store).1 in
      let reply = incr-reply counter_key s.store in
      set_request-IsSound q i (numbered id) (record s { store = (incr counter_key s.store).0 })
        (incr-IsSound q s h) (λ job e. ground (arith, e, reply, counter-incr counter_key s.store))
        (λ j job e f. ground (arith, e, f, reply, h.bound j job)) (λ job v e. ground (arith, e))
  take_id-Sound i (numbered id) s h = tt
  take_id-Sound i (queued id) s h = tt
  take_id-Sound i (answered id v) s h = tt
  take_id-Sound i refused s h = tt

  fail_increment-Sound :
      (i : ℕ) (r : Request) (s : System q) → IsSound q s → Sound (fail_increment q i r s)
  fail_increment-Sound i ready s h = refuse-IsSound q i s h
  fail_increment-Sound i (numbered id) s h = tt
  fail_increment-Sound i (queued id) s h = tt
  fail_increment-Sound i (answered id v) s h = tt
  fail_increment-Sound i refused s h = tt

  push-Sound :
      (i : ℕ) (r : Request) (s : System q) → IsSound q s → s.requests i ≡ r → Sound (push q i r s)
  push-Sound i (numbered id) s h p =
      set_request-IsSound q i (queued id) (record s { store = rpush tasks id s.store })
        (push-IsSound q id s h) (λ job e. ground (arith, e, p, (push-IsSound q id s h).bound i job))
        (λ j job e f. ground (arith, e, f, p, h.distinct j i job)) (λ job v e. ground (arith, e))
  push-Sound i ready s h p = tt
  push-Sound i (queued id) s h p = tt
  push-Sound i (answered id v) s h p = tt
  push-Sound i refused s h p = tt

  fail_push-Sound : (i : ℕ) (r : Request) (s : System q) → IsSound q s → Sound (fail_push q i r s)
  fail_push-Sound i (numbered id) s h = refuse-IsSound q i s h
  fail_push-Sound i ready s h = tt
  fail_push-Sound i (queued id) s h = tt
  fail_push-Sound i (answered id v) s h = tt
  fail_push-Sound i refused s h = tt

  popped-Sound :
      (i id : ℕ) (s : System q) (o : Option ℕ)
      → IsSound q s
      → s.requests i ≡ queued id
      → (lpop (results_of id) s.store).1 ≡ o
      → Sound (popped q i id s ((lpop (results_of id) s.store).0, o))
  popped-Sound i id s none h p e = tt
  popped-Sound i id s (some v) h p e =
      let k = lose_result-IsSound q id s h in
      set_request-IsSound q i (answered id v)
        (record s { store = (lpop (results_of id) s.store).0 }) k
        (λ job e. ground (arith, e, p, k.bound i job))
        (λ j job e f. ground (arith, e, f, p, h.distinct j i job))
        (λ job w x. ground (arith, x, popped_genuine q id v s h e))

  pop_result-Sound :
      (i : ℕ) (r : Request) (s : System q)
      → IsSound q s
      → s.requests i ≡ r
      → Sound (pop_result q i r s)
  pop_result-Sound i (queued id) s h p =
      popped-Sound i id s (lpop (results_of id) s.store).1 h p refl
  pop_result-Sound i ready s h p = tt
  pop_result-Sound i (numbered id) s h p = tt
  pop_result-Sound i (answered id v) s h p = tt
  pop_result-Sound i refused s h p = tt

  fail_pop-Sound : (i : ℕ) (r : Request) (s : System q) → IsSound q s → Sound (fail_pop q i r s)
  fail_pop-Sound i (queued id) s h = refuse-IsSound q i s h
  fail_pop-Sound i ready s h = tt
  fail_pop-Sound i (numbered id) s h = tt
  fail_pop-Sound i (answered id v) s h = tt
  fail_pop-Sound i refused s h = tt

  taken-Sound :
      (d : ℕ) (s : System q) (o : Option ℕ)
      → IsSound q s
      → Sound (taken q d s ((lpop tasks s.store).0, o))
  taken-Sound d s none h = tt
  taken-Sound d s (some job) h = pop_task-IsSound q job d s h

  pop_task-Sound : (d : ℕ) (g : Engine) (s : System q) → IsSound q s → Sound (pop_task q d g s)
  pop_task-Sound d idle s h = taken-Sound d s (lpop tasks s.store).1 h
  pop_task-Sound d (working job e) s h = tt

  push_result-Sound :
      (g : Engine) (s : System q) → IsSound q s → s.engine ≡ g → Sound (push_result q g s)
  push_result-Sound idle s h p = tt
  push_result-Sound (working job d) s h p =
      rest-IsSound q _ (push_result-IsSound q job d s h (h.at_work job d p))

  fail_result-Sound : (g : Engine) (s : System q) → IsSound q s → Sound (fail_result q g s)
  fail_result-Sound idle s h = tt
  fail_result-Sound (working job d) s h = rest-IsSound q s h

  repeat_request-Sound : (r : Request) (s : System q) → IsSound q s → Sound (repeat_request q r s)
  repeat_request-Sound ready s h = incr-IsSound q s h
  repeat_request-Sound (numbered id) s h = push-IsSound q id s h
  repeat_request-Sound (queued id) s h = lose_result-IsSound q id s h
  repeat_request-Sound (answered id v) s h = tt
  repeat_request-Sound refused s h = tt

  repeat_engine-Sound :
      (g : Engine) (s : System q) → IsSound q s → s.engine ≡ g → Sound (repeat_engine q g s)
  repeat_engine-Sound idle s h p = lose_task-IsSound q s h
  repeat_engine-Sound (working job d) s h p = push_result-IsSound q job d s h (h.at_work job d p)

  pub step-Sound : (e : Event) (s : System q) → IsSound q s → Sound (step q e s)
  unfolding step
  step-Sound (incremented i) s h = take_id-Sound i (s.requests i) s h
  step-Sound (pushed i) s h = push-Sound i (s.requests i) s h refl
  step-Sound (increment_fails i) s h = fail_increment-Sound i (s.requests i) s h
  step-Sound (push_fails i) s h = fail_push-Sound i (s.requests i) s h
  step-Sound (result_popped i) s h = pop_result-Sound i (s.requests i) s h refl
  step-Sound (pop_fails i) s h = fail_pop-Sound i (s.requests i) s h
  step-Sound (request_repeated i) s h = repeat_request-Sound (s.requests i) s h
  step-Sound (task_popped d) s h = pop_task-Sound d s.engine s h
  step-Sound result_pushed s h = push_result-Sound s.engine s h refl
  step-Sound result_fails s h = fail_result-Sound s.engine s h
  step-Sound engine_repeated s h = repeat_engine-Sound s.engine s h refl
