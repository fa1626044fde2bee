-- ===== src/WorkerPool/Accounts.antt =====
-- Where each job is, as itself or as its result, and how many steps are left.
use go_examples.Base.{
  ℕ, zero, suc, ◌+◌, ◌*◌, ◌≤◌, ◌≡◌, ◌∙◌, ◌⊎◌, inl, inr, refl, ap, Bool, true, List, [], ◌∷◌, ◌++◌,
  map, length, length-append, replicate, count, count-append, if◌then◌else◌, arith,
}
use go_examples.WorkerPool.{
  Hand, free, working, returned, System, doubled, Work, receive, send, leave, Turn, here, there,
  Step, send_job, close_jobs, turn, print, numbers_from, Reach, start, later,
}

-- What a hand counts for in the account of v, among the busy, and among those that stay.
abbrev pub holds : ℕ → Hand → ℕ
holds v free = 0
holds v (working j) = count v (doubled j ∷ [])
holds v returned = 0

abbrev pub is_busy : Hand → ℕ
is_busy free = 0
is_busy (working j) = 1
is_busy returned = 0

abbrev pub stays : Hand → ℕ
stays free = 1
stays (working j) = 1
stays returned = 0

abbrev pub sum_of : (Hand → ℕ) → List Hand → ℕ
sum_of f [] = 0
sum_of f (w ∷ ws) = f w + sum_of f ws

abbrev pub results_of : ℕ → List ℕ → ℕ
results_of v js = count v (map doubled js)

-- Where v is, as a job or as a result.
abbrev pub balance : ℕ → List ℕ → List Hand → List ℕ → ℕ
balance v js ws rs = results_of v js + sum_of (holds v) ws + count v rs

abbrev pub size : List ℕ → List Hand → List ℕ → ℕ
size js ws rs = length js + sum_of is_busy ws + length rs

-- The steps that the workers and main have left for these jobs and results.
abbrev pub effort : List ℕ → List Hand → List ℕ → ℕ
effort js ws rs = 3 * length js + 2 * sum_of is_busy ws + length rs + sum_of stays ws

-- A worker keeps the accounts, takes one of the steps, and leaves only when no job is to come.
pub record Kept (js : List ℕ) (c : Bool) (ws : List Hand) (rs js' : List ℕ) (ws' : List Hand)
    (rs' : List ℕ) : Type 0 where
  pub values : (v : ℕ) → balance v js' ws' rs' ≡ balance v js ws rs
  pub sizes : size js' ws' rs' ≡ size js ws rs
  pub width : length ws' ≡ length ws
  pub nearer : effort js' ws' rs' + 1 ≡ effort js ws rs
  pub shrinks : length js' ≤ length js
  pub leaves : (sum_of stays ws' ≡ sum_of stays ws) ⊎ ((c ≡ true) × (length js' ≡ 0))

module _ {num_jobs : ℕ} where
  Work-Kept :
      {c : Bool} {js rs js' rs' : List ℕ} {w w' : Hand} (ws : List Hand)
      → Work num_jobs js c rs w js' rs' w'
      → Kept js c (w ∷ ws) rs js' (w' ∷ ws) rs'
  Work-Kept ws receive = record {
    values = λ v. omega arith;
    sizes = omega arith;
    width = refl;
    nearer = omega arith;
    shrinks = omega arith;
    leaves = inl refl;
  }
  Work-Kept ws (send {j} {js} {rs} l) = record {
    values = λ v. omega (arith, count-append v rs (doubled j ∷ []));
    sizes = omega (arith, length-append rs (doubled j ∷ []));
    width = refl;
    nearer = omega (arith, length-append rs (doubled j ∷ []));
    shrinks = omega arith;
    leaves = inl refl;
  }
  Work-Kept ws leave = record {
    values = λ v. refl;
    sizes = refl;
    width = refl;
    nearer = omega arith;
    shrinks = omega arith;
    leaves = inr (refl, refl);
  }

  pub Turn-Kept :
      {c : Bool} {js rs js' rs' : List ℕ} {ws ws' : List Hand}
      → Turn num_jobs js c rs js' rs' ws ws'
      → Kept js c ws rs js' ws' rs'
  Turn-Kept (here {w} {w'} {ws} k) = Work-Kept ws k
  Turn-Kept (there t) =
      let k = Turn-Kept t in
      record {
        values = λ v. omega (arith, k.values v);
        sizes = omega (arith, k.sizes);
        width = ap suc k.width;
        nearer = omega (arith, k.nearer);
        shrinks = k.shrinks;
        leaves = elim k.leaves [ inl e ↦ inl (omega (arith, e)) | inr e ↦ inr e ];
      }

results_of-append :
    (v : ℕ) (js ks : List ℕ) → results_of v (js ++ ks) ≡ results_of v js + results_of v ks
results_of-append v [] ks = omega arith
results_of-append v (j ∷ js) ks = omega (arith, results_of-append v js ks)

-- The state's accounts: the results that there will be, the bound on the channels, and the steps left.
pub record Inv (num_jobs num_workers steps : ℕ) (s : System) : Type 0 where
  pub values :
      (v : ℕ)
      → results_of v s.unsent + balance v s.jobs s.workers s.results + count v s.printed
        ≡ results_of v (numbers_from 1 num_jobs)
  pub sizes : length s.unsent + size s.jobs s.workers s.results + length s.printed ≡ num_jobs
  pub width : length s.workers ≡ num_workers
  pub left :
      steps + 4 * length s.unsent + effort s.jobs s.workers s.results + (if s.closed then 0 else 1)
      ≡ 4 * num_jobs + num_workers + 1
  pub all_sent : s.closed ≡ true → s.unsent ≡ []
  pub leaves : (sum_of stays s.workers ≡ num_workers) ⊎ ((s.closed ≡ true) × (length s.jobs ≡ 0))

module _ {num_jobs num_workers steps : ℕ} where
  Step-Inv :
      {s t : System}
      → Step num_jobs s t
      → Inv num_jobs num_workers steps s
      → Inv num_jobs num_workers (suc steps) t
  Step-Inv (send_job {s} {j} {js} e l) i = record {
    values =
        λ v. omega (arith, i.values v, ap (results_of v) e, results_of-append v s.jobs (j ∷ []));
    sizes = omega (arith, i.sizes, ap length e, length-append s.jobs (j ∷ []));
    width = i.width;
    left = omega (arith, i.left, ap length e, length-append s.jobs (j ∷ []));
    all_sent = λ c. ground (arith, e, i.all_sent c);
    leaves = elim i.leaves [ inl x ↦ inl x | inr (c, z) ↦ ground (arith, e, c, i.all_sent) ];
  }
  Step-Inv (close_jobs {s} e c) i = record {
    values = i.values;
    sizes = i.sizes;
    width = i.width;
    left = ground (arith, i.left, c);
    all_sent = λ _. e;
    leaves = ground (arith, c, i.leaves);
  }
  Step-Inv (turn {s} t) i =
      let k = Turn-Kept t in
      record {
        values = λ v. omega (arith, i.values v, k.values v);
        sizes = omega (arith, i.sizes, k.sizes);
        width = k.width ∙ i.width;
        left = omega (arith, i.left, k.nearer);
        all_sent = i.all_sent;
        leaves = ground (arith, i.leaves, k.leaves, k.shrinks);
      }
  Step-Inv (print {s} {r} {rs} c l e) i = record {
    values = λ v. omega (arith, i.values v, ap (count v) e, count-append v s.printed (r ∷ []));
    sizes = omega (arith, i.sizes, ap length e, length-append s.printed (r ∷ []));
    width = i.width;
    left = omega (arith, i.left, ap length e);
    all_sent = i.all_sent;
    leaves = i.leaves;
  }

new_hands :
    (w v : ℕ)
    → (sum_of (holds v) (replicate w free) ≡ 0)
      × (sum_of is_busy (replicate w free) ≡ 0)
      × (sum_of stays (replicate w free) ≡ w)
      × (length (replicate w free) ≡ w)
new_hands zero v = (refl, refl, refl, refl)
new_hands (suc w) v =
    let (a, b, c, d) = new_hands w v in
    (omega (arith, a), omega (arith, b), omega (arith, c), omega (arith, d))

length-numbers_from : (j n : ℕ) → length (numbers_from j n) ≡ n
length-numbers_from j zero = refl
length-numbers_from j (suc n) = ap suc (length-numbers_from (suc j) n)

pub Reach-Inv :
    {num_jobs num_workers steps : ℕ} {s : System}
    → Reach num_jobs num_workers steps s
    → Inv num_jobs num_workers steps s
Reach-Inv {num_jobs} {num_workers} start =
    let (_, b, c, d) = new_hands num_workers 0 in
    record {
      values = λ v. omega (arith, (new_hands num_workers v).0);
      sizes = omega (arith, b, length-numbers_from 1 num_jobs);
      width = d;
      left = omega (arith, b, c, length-numbers_from 1 num_jobs);
      all_sent = λ e. ground (arith, e);
      leaves = inl c;
    }
Reach-Inv (later r st) = Step-Inv st (Reach-Inv r)
