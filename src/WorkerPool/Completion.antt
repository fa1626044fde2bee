-- ===== src/WorkerPool/Completion.antt =====
-- The pool completes: main prints the result of every job.
use go_examples.Base.{
  ℕ, ◌+◌, ◌*◌, ◌≤◌, ◌<◌, ◌≡◌, refl, ap, ◌⊎◌, inl, inr, Bool, List, [], ◌∷◌, ◌++◌, map, length,
  count, Bool-cases, arith,
}
use go_examples.WorkerPool.{
  Hand, free, working, returned, System, doubled, receive, send, Turn, here, there, Step, send_job,
  close_jobs, turn, print, numbers_from, Reach,
}
use go_examples.WorkerPool.Accounts.{is_busy, stays, sum_of, holds, results_of, Inv, Reach-Inv}

List-cases : (xs : List ℕ) → (xs ≡ []) ⊎ ((x : ℕ) × (ys : List ℕ) × (xs ≡ x ∷ ys))
List-cases [] = inl refl
List-cases (x ∷ xs) = inr (x, xs, refl)

Zero-cases : (n : ℕ) → (n ≡ 0) ⊎ (0 < n)
Zero-cases n = ground arith

Bound-cases : (m n : ℕ) → (m < n) ⊎ (n ≤ m)
Bound-cases m n = ground arith

record Turned (num_jobs : ℕ) (js : List ℕ) (c : Bool) (rs : List ℕ) (ws : List Hand) : Type 0 where
  jobs_left : List ℕ
  results_then : List ℕ
  workers_then : List Hand
  turns : Turn num_jobs js c rs jobs_left results_then ws workers_then

module _ (num_jobs : ℕ) where
  behind :
      (js : List ℕ) (c : Bool) (rs : List ℕ) (w : Hand) (ws : List Hand)
      → Turned num_jobs js c rs ws
      → Turned num_jobs js c rs (w ∷ ws)
  behind js c rs w ws t = record {
    jobs_left = t.jobs_left;
    results_then = t.results_then;
    workers_then = w ∷ t.workers_then;
    turns = there t.turns;
  }

  -- A worker with a job can send its result.
  send_next :
      (js : List ℕ) (c : Bool) (rs : List ℕ) (ws : List Hand)
      → length rs < num_jobs
      → 0 < sum_of is_busy ws
      → Turned num_jobs js c rs ws
  send_next js c rs [] l b = ground (arith, b)
  send_next js c rs (free ∷ ws) l b =
      behind js c rs free ws (send_next js c rs ws l (omega (arith, b)))
  send_next js c rs (returned ∷ ws) l b =
      behind js c rs returned ws (send_next js c rs ws l (omega (arith, b)))
  send_next js c rs (working j ∷ ws) l b = record {
    jobs_left = js;
    results_then = rs ++ doubled j ∷ [];
    workers_then = free ∷ ws;
    turns = here (send l);
  }

  stays_bound : (ws : List Hand) → sum_of stays ws ≤ length ws
  stays_bound [] = omega arith
  stays_bound (free ∷ ws) = omega (arith, stays_bound ws)
  stays_bound (working j ∷ ws) = omega (arith, stays_bound ws)
  stays_bound (returned ∷ ws) = omega (arith, stays_bound ws)

  -- When no worker has a job and none has returned, the first can receive one.
  receive_next :
      (j : ℕ) (js : List ℕ) (c : Bool) (rs : List ℕ) (ws : List Hand)
      → 0 < length ws
      → sum_of is_busy ws ≡ 0
      → sum_of stays ws ≡ length ws
      → Turned num_jobs (j ∷ js) c rs ws
  receive_next j js c rs [] l b s = ground (arith, l)
  receive_next j js c rs (free ∷ ws) l b s = record {
    jobs_left = js;
    results_then = rs;
    workers_then = working j ∷ ws;
    turns = here receive;
  }
  receive_next j js c rs (working k ∷ ws) l b s = ground (arith, b)
  receive_next j js c rs (returned ∷ ws) l b s = ground (arith, s, stays_bound ws)

  can_turn :
      (s : System)
      → Turned num_jobs s.jobs s.closed s.results s.workers
      → (t : System) × Step num_jobs s t
  can_turn s t = (_, turn t.turns)

  receives :
      (js : List ℕ) (c : Bool) (rs : List ℕ) (ws : List Hand)
      → 0 < length js
      → 0 < length ws
      → sum_of is_busy ws ≡ 0
      → sum_of stays ws ≡ length ws
      → Turned num_jobs js c rs ws
  receives [] c rs ws b l z e = ground (arith, b)
  receives (j ∷ js) c rs ws b l z e = receive_next j js c rs ws l z e

  module _ {num_workers steps : ℕ} (s : System) (i : Inv num_jobs num_workers steps s) where
    -- After the end of the jobs, with no result to receive.
    workers_on :
        0 < num_workers
        → length s.printed < num_jobs
        → length s.unsent ≡ 0
        → length s.results ≡ 0
        → Turned num_jobs s.jobs s.closed s.results s.workers
    workers_on l h u e = elim (Zero-cases (sum_of is_busy s.workers)) [
      | inr b ↦ send_next s.jobs s.closed s.results s.workers (omega (arith, h, e)) b
      | inl z ↦
          let b : 0 < length s.jobs = omega (arith, z, i.sizes, h, u, e) in
          receives s.jobs s.closed s.results s.workers b (omega (arith, l, i.width)) z
            (ground (arith, i.leaves, i.width, b))
    ]

    -- Until main has printed as many results as there are jobs, some goroutine can go on.
    progress : 0 < num_workers → length s.printed < num_jobs → (t : System) × Step num_jobs s t
    progress l h = elim (List-cases s.unsent) [
      | inr (j, js, e) ↦ (_, send_job e (omega (arith, i.sizes, ap length e, h)))
      | inl u ↦ elim (Bool-cases s.closed) [
        | inr c ↦ (_, close_jobs u c)
        | inl c ↦ elim (List-cases s.results) [
          | inr (r, rs, e) ↦ (_, print c h e)
          | inl e ↦ can_turn s (workers_on l h (ap length u) (ap length e))
        ]
      ]
    ]

none_left : (v : ℕ) (js : List ℕ) → length js ≡ 0 → results_of v js ≡ 0
none_left v [] h = refl
none_left v (j ∷ js) h = ground (arith, h)

no_results : (v : ℕ) (rs : List ℕ) → length rs ≡ 0 → count v rs ≡ 0
no_results v [] h = refl
no_results v (r ∷ rs) h = ground (arith, h)

none_held : (v : ℕ) (ws : List Hand) → sum_of is_busy ws ≡ 0 → sum_of (holds v) ws ≡ 0
none_held v [] h = refl
none_held v (free ∷ ws) h = ground (arith, none_held v ws, h)
none_held v (working j ∷ ws) h = ground (arith, h)
none_held v (returned ∷ ws) h = ground (arith, none_held v ws, h)

all_printed :
    {num_jobs num_workers steps : ℕ} (s : System)
    → Inv num_jobs num_workers steps s
    → num_jobs ≤ length s.printed
    → (v : ℕ) → count v s.printed ≡ count v (map doubled (numbers_from 1 num_jobs))
all_printed s i h v = omega (
  arith,
  i.values v,
  none_left v s.unsent (omega (arith, i.sizes, h)),
  none_left v s.jobs (omega (arith, i.sizes, h)),
  no_results v s.results (omega (arith, i.sizes, h)),
  none_held v s.workers (omega (arith, i.sizes, h)),
)

-- With a worker or more the pool never takes more than four steps for each job, one for each worker and one to
-- close the channel; and until main has printed the double of every job, as often as the jobs give it and nothing
-- else, another step is possible.
pub all_results :
    {num_jobs num_workers steps : ℕ} {s : System}
    → 0 < num_workers
    → Reach num_jobs num_workers steps s
    → (steps ≤ 4 * num_jobs + num_workers + 1)
      × (((t : System) × Step num_jobs s t)
          ⊎ ((v : ℕ) → count v s.printed ≡ count v (map (λ j. j * 2) (numbers_from 1 num_jobs))))
all_results {num_jobs} {num_workers} {steps} {s} l r =
    let i = Reach-Inv r in
    (
      omega (arith, i.left),
      elim (Bound-cases (length s.printed) num_jobs) [
        | inl h ↦ inl (progress num_jobs s i l h)
        | inr h ↦ inr (all_printed s i h)
      ],
    )
