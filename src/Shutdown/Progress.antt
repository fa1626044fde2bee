-- ===== src/Shutdown/Progress.antt =====
-- How the process ends.
use mathlib.Core.Path.{subst}
use go_examples.Base.{
  ℕ, zero, suc, ◌+◌, ◌<◌, ◌≡◌, refl, ap, true, List, [], ◌∷◌, some, ok, arith, length,
}
use go_examples.Shutdown.{
  Worker, working, draining, stopped, Main, awaiting_signal, awaiting_workers, ended, Process,
  WorkerEvent, shutdown_seen, drained, Event, signal_seen, workers_done, at, worker_step, worker_at,
  all_stopped, is_running, step, run,
}

-- The steps that a worker is from its return.
abbrev pub distance : Worker → ℕ
distance working = 2
distance draining = 1
distance stopped = 0

abbrev pub load : List Worker → ℕ
load [] = 0
load (w ∷ ws) = distance w + load ws

load_zero : (ws : List Worker) → load ws ≡ 0 → all_stopped ws ≡ true
load_zero [] h = refl
load_zero (stopped ∷ ws) h = load_zero ws (omega (arith, h))
load_zero (draining ∷ ws) h = ground (arith, h)
load_zero (working ∷ ws) h = ground (arith, h)

-- A worker that can go on, once the context is cancelled.
abbrev Moves : List Worker → Type 0
Moves ws =
    (k : ℕ) × (e : WorkerEvent) × (vs : List Worker) × (worker_at true k e ws ≡ some vs)
    × (suc (load vs) ≡ load ws)

later-Moves : (w : Worker) (ws : List Worker) → Moves ws → Moves (w ∷ ws)
later-Moves w ws (k, e, vs, h, l) = (suc k, e, w ∷ vs, ground (arith, h), omega (arith, l))

worker-Moves : (ws : List Worker) → 0 < load ws → Moves ws
unfolding worker_step
worker-Moves [] h = ground (arith, h)
worker-Moves (working ∷ ws) h = (0, shutdown_seen, draining ∷ ws, refl, omega arith)
worker-Moves (draining ∷ ws) h = (0, drained, stopped ∷ ws, refl, omega arith)
worker-Moves (stopped ∷ ws) h = later-Moves stopped ws (worker-Moves ws (omega (arith, h)))

-- The process can go on to a clean end in n steps.
abbrev pub EndsIn : ℕ → Process → Type 0
EndsIn n p =
    (es : List Event) × (q : Process) × (run es p ≡ some q)
    × (q.main ≡ ended (ok tt))
    × (length es ≡ n)

EndsIn-step :
    (n : ℕ) (e : Event) (p q : Process) → step e p ≡ some q → EndsIn n q → EndsIn (suc n) p
unfolding run
EndsIn-step n e p q h (es, r, k, m, l) = (e ∷ es, r, ground (arith, h, k), m, ap suc l)

drains :
    (n : ℕ) (p : Process)
    → p.cancelled ≡ true
    → p.main ≡ awaiting_workers
    → load p.workers ≡ n
    → EndsIn (suc n) p
unfolding run step
drains zero p c m l =
    let z = load_zero p.workers l in
    (workers_done ∷ [], record p { main = ended (ok tt) }, ground (arith, z, m), refl, omega arith)
drains (suc n) p c m l =
    let (k, e, vs, h, d) = worker-Moves p.workers (omega (arith, l)) in
    EndsIn-step (suc n) (at k e) p (record p { workers = vs }) (ground (arith, h, c, m))
      (drains n (record p { workers = vs }) c m (omega (arith, d, l)))

abbrev pub steps_left : Main → ℕ
steps_left awaiting_signal = 2
steps_left awaiting_workers = 1
steps_left (ended r) = 0

pub ends_from :
    (m : Main) (p : Process)
    → p.main ≡ m
    → p.cancelled ≡ true
    → is_running m ≡ true
    → EndsIn (steps_left m + load p.workers) p
unfolding step
ends_from awaiting_signal p h c r =
    subst (λ n. EndsIn n p) (omega arith)
      (EndsIn-step (suc (load p.workers)) signal_seen p (record p { main = awaiting_workers })
        (ground (arith, h, c))
        (drains (load p.workers) (record p { main = awaiting_workers }) c refl refl))
ends_from awaiting_workers p h c r =
    subst (λ n. EndsIn n p) (omega arith) (drains (load p.workers) p c h refl)
ends_from (ended x) p h c r = ground (arith, r)
