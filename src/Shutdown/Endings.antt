-- ===== src/Shutdown/Endings.antt =====
-- What the process is when it ends, in every interleaving.
use mathlib.Core.Path.{subst}
use go_examples.Base.{
  ℕ, zero, suc, ◌+◌, ◌≡◌, refl, Bool, true, false, List, [], ◌∷◌, Option, none, some, ok,
  if◌then◌else◌, replicate, arith,
}
use go_examples.Shutdown.{
  Worker, working, draining, stopped, Main, awaiting_signal, awaiting_workers, ended, Process,
  WorkerEvent, job_done, shutdown_seen, drained, Event, signalled, signal_seen, workers_done,
  timed_out, at, worker_step, worker_at, all_stopped, start, see_signal, see_done, see_timeout,
  is_running, with_main, with_workers, step, run,
}
use go_examples.Shutdown.Progress.{load, EndsIn, steps_left, ends_from}

abbrev pub all_working : List Worker → Bool
all_working [] = true
all_working (working ∷ ws) = all_working ws
all_working (draining ∷ ws) = false
all_working (stopped ∷ ws) = false

abbrev is_waiting : Main → Bool
is_waiting awaiting_signal = true
is_waiting awaiting_workers = false
is_waiting (ended r) = false

-- Before the signal every worker is in its loop; a clean end is one of stopped workers.
record IsOrderly (p : Process) : Type 0 where
  unsignalled : p.cancelled ≡ false → all_working p.workers ≡ true
  woken : is_waiting p.main ≡ false → p.cancelled ≡ true
  clean : p.main ≡ ended (ok tt) → all_stopped p.workers ≡ true

abbrev Orderly : Option Process → Type 0
Orderly none = Unit
Orderly (some p) = IsOrderly p

only_if : (b : Bool) (o : Option Process) → (b ≡ true → Orderly o) → Orderly (if b then o else none)
only_if true o h = h refl
only_if false o h = tt

abbrev KeepsWorking : List Worker → Option (List Worker) → Type 0
KeepsWorking ws none = Unit
KeepsWorking ws (some vs) = all_working ws ≡ true → all_working vs ≡ true

KeepsWorking-cons :
    (w : Worker) (ws : List Worker) (o : Option (List Worker))
    → KeepsWorking ws o
    → KeepsWorking (w ∷ ws) (elim o [ none ↦ none | some vs ↦ some (w ∷ vs) ])
KeepsWorking-cons w ws none h = tt
KeepsWorking-cons working ws (some vs) h = h
KeepsWorking-cons draining ws (some vs) h = λ e. e
KeepsWorking-cons stopped ws (some vs) h = λ e. e

worker_at-KeepsWorking :
    (k : ℕ) (e : WorkerEvent) (ws : List Worker) → KeepsWorking ws (worker_at false k e ws)
unfolding worker_step
worker_at-KeepsWorking k e [] = tt
worker_at-KeepsWorking zero job_done (working ∷ ws) = λ h. h
worker_at-KeepsWorking zero shutdown_seen (working ∷ ws) = tt
worker_at-KeepsWorking zero drained (working ∷ ws) = tt
worker_at-KeepsWorking zero job_done (draining ∷ ws) = tt
worker_at-KeepsWorking zero shutdown_seen (draining ∷ ws) = tt
worker_at-KeepsWorking zero drained (draining ∷ ws) = λ h. ground (arith, h)
worker_at-KeepsWorking zero job_done (stopped ∷ ws) = tt
worker_at-KeepsWorking zero shutdown_seen (stopped ∷ ws) = tt
worker_at-KeepsWorking zero drained (stopped ∷ ws) = tt
worker_at-KeepsWorking (suc k) e (w ∷ ws) =
    KeepsWorking-cons w ws (worker_at false k e ws) (worker_at-KeepsWorking k e ws)

signal_seen-Orderly :
    (c : Bool) (m : Main) (p : Process)
    → IsOrderly p
    → p.cancelled ≡ c
    → p.main ≡ m
    → Orderly (with_main p (see_signal c m))
signal_seen-Orderly true awaiting_signal p h c m = record {
  unsignalled = h.unsignalled;
  woken = λ e. c;
  clean = λ e. ground (arith, e);
}
signal_seen-Orderly false awaiting_signal p h c m = tt
signal_seen-Orderly c' awaiting_workers p h c m = tt
signal_seen-Orderly c' (ended r) p h c m = tt

workers_done-Orderly :
    (b : Bool) (m : Main) (p : Process)
    → IsOrderly p
    → all_stopped p.workers ≡ b
    → p.main ≡ m
    → Orderly (with_main p (see_done b m))
workers_done-Orderly true awaiting_workers p h b m = record {
  unsignalled = h.unsignalled;
  woken = λ e. h.woken (ground (arith, m));
  clean = λ e. b;
}
workers_done-Orderly false awaiting_workers p h b m = tt
workers_done-Orderly b' awaiting_signal p h b m = tt
workers_done-Orderly b' (ended r) p h b m = tt

timed_out-Orderly :
    (m : Main) (p : Process) → IsOrderly p → p.main ≡ m → Orderly (with_main p (see_timeout m))
timed_out-Orderly awaiting_workers p h m = record {
  unsignalled = h.unsignalled;
  woken = λ e. h.woken (ground (arith, m));
  clean = λ e. ground (arith, e);
}
timed_out-Orderly awaiting_signal p h m = tt
timed_out-Orderly (ended r) p h m = tt

at-Orderly :
    (o : Option (List Worker)) (p : Process)
    → IsOrderly p
    → is_running p.main ≡ true
    → (p.cancelled ≡ false → KeepsWorking p.workers o)
    → Orderly (with_workers p o)
at-Orderly none p h r k = tt
at-Orderly (some ws) p h r k = record {
  unsignalled = λ e. k e (h.unsignalled e);
  woken = h.woken;
  clean = λ e. ground (arith, e, r);
}

at_keeps :
    (k : ℕ) (e : WorkerEvent) (c : Bool) (ws : List Worker)
    → c ≡ false
    → KeepsWorking ws (worker_at c k e ws)
at_keeps k e false ws h = worker_at-KeepsWorking k e ws
at_keeps k e true ws h = ground (arith, h)

step-Orderly : (e : Event) (p : Process) → IsOrderly p → Orderly (step e p)
unfolding step
step-Orderly signalled p h =
    only_if (is_running p.main) _
      (λ r. record { unsignalled = λ e. ground (arith, e); woken = λ e. refl; clean = h.clean })
step-Orderly signal_seen p h = signal_seen-Orderly p.cancelled p.main p h refl refl
step-Orderly workers_done p h = workers_done-Orderly (all_stopped p.workers) p.main p h refl refl
step-Orderly timed_out p h = timed_out-Orderly p.main p h refl
step-Orderly (at k e) p h = only_if (is_running p.main) _ (λ r.
    at-Orderly (worker_at p.cancelled k e p.workers) p h r (at_keeps k e p.cancelled p.workers))

onward :
    (o : Option Process) (es : List Event)
    → Orderly o
    → ((p : Process) → IsOrderly p → Orderly (run es p))
    → Orderly (elim o [ none ↦ none | some p ↦ run es p ])
onward none es h k = tt
onward (some p) es h k = k p h

run-Orderly : (es : List Event) (p : Process) → IsOrderly p → Orderly (run es p)
unfolding run
run-Orderly [] p h = h
run-Orderly (e ∷ es) p h = onward (step e p) es (step-Orderly e p h) (run-Orderly es)

replicate-working : (n : ℕ) → all_working (replicate n working) ≡ true
replicate-working zero = refl
replicate-working (suc n) = replicate-working n

start-IsOrderly : (n : ℕ) → IsOrderly (start n)
unfolding start
start-IsOrderly n = record {
  unsignalled = λ e. replicate-working n;
  woken = λ e. ground (arith, e);
  clean = λ e. ground (arith, e);
}

run-IsOrderly : (n : ℕ) (es : List Event) (p : Process) → run es (start n) ≡ some p → IsOrderly p
run-IsOrderly n es p h = subst Orderly h (run-Orderly es (start n) (start-IsOrderly n))

-- However the workers, main and the signal interleave, `run` returns nil only after a signal and with
-- every worker stopped, and no worker leaves its loop before the signal.
pub clean_exit :
    (n : ℕ) (es : List Event) (p : Process)
    → run es (start n) ≡ some p
    → (p.main ≡ ended (ok tt) → (p.cancelled ≡ true) × (all_stopped p.workers ≡ true))
      × (p.cancelled ≡ false → all_working p.workers ≡ true)
clean_exit n es p h =
    let o = run-IsOrderly n es p h in (λ m. (o.woken (ground (arith, m)), o.clean m), o.unsignalled)

-- The shutdown does not hang: from any state after the signal in which main has not returned, the
-- process can go on to a clean end, in two steps for each worker in its loop, one for each on its last job,
-- and at most two of main.
pub shutdown_ends :
    (p : Process)
    → p.cancelled ≡ true
    → is_running p.main ≡ true
    → EndsIn (steps_left p.main + load p.workers) p
shutdown_ends p c r = ends_from p.main p refl c r
