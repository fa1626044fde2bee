-- ===== src/JobQueue/Tests.antt =====
-- A server in memory, a run against it, and the theorem at that run.
use go_examples.Base.{
  ℕ, ◌+◌, ◌==◌, ==_iff, ◌≡◌, ◌≢◌, refl, inl, inr, Bool, true, false, List, [], ◌∷◌, ◌++◌, Option,
  none, some, if◌then◌else◌, arith, Bool-cases,
}
use go_examples.JobQueue.Server.{Key, counter_key, tasks, results_of, Queues}
use go_examples.JobQueue.{
  System, Event, start, step, run, incremented, pushed, result_popped, pop_fails, task_popped,
  request_repeated, engine_repeated, result_pushed,
}
use go_examples.JobQueue.Invariant.{job_of, has}
use go_examples.JobQueue.Answers.{answers_genuine}

abbrev same_key : Key → Key → Bool
same_key counter_key counter_key = true
same_key tasks tasks = true
same_key (results_of i) (results_of j) = i == j
same_key _ _ = false

same_key_refl : (k : Key) → same_key k k ≡ true
same_key_refl counter_key = refl
same_key_refl tasks = refl
same_key_refl (results_of i) = ground (arith, ==_iff i i)

same_key_eq : (k j : Key) → same_key k j ≡ true → k ≡ j
same_key_eq counter_key counter_key h = refl
same_key_eq counter_key tasks h = ground (arith, h)
same_key_eq counter_key (results_of j) h = ground (arith, h)
same_key_eq tasks counter_key h = ground (arith, h)
same_key_eq tasks tasks h = refl
same_key_eq tasks (results_of j) h = ground (arith, h)
same_key_eq (results_of i) counter_key h = ground (arith, h)
same_key_eq (results_of i) tasks h = ground (arith, h)
same_key_eq (results_of i) (results_of j) h = ground (arith, h, ==_iff i j)

other_key : (k j : Key) → k ≢ j → same_key k j ≡ false
other_key k j n = elim (Bool-cases (same_key k j)) [
  | inl t ↦ ground (arith, n (same_key_eq k j t))
  | inr t ↦ t
]

record Store : Type 0 where
  counters : Key → ℕ
  lists : Key → List ℕ

abbrev put_list : Key → List ℕ → Store → Store
put_list k vs s = record s { lists = λ j. if same_key k j then vs else s.lists j }

abbrev popped_from : Key → Store → List ℕ → Store × Option ℕ
popped_from k s [] = (s, none)
popped_from k s (v ∷ vs) = (put_list k vs s, some v)

abbrev bump : Key → Store → Store
bump k s = record s { counters = λ j. if same_key k j then s.counters k + 1 else s.counters j }

written : (k : Key) (vs : List ℕ) (s : Store) → (put_list k vs s).lists k ≡ vs
written k vs s = ground (arith, same_key_refl k)

unwritten : (k j : Key) (vs : List ℕ) (s : Store) → k ≢ j → (put_list k vs s).lists j ≡ s.lists j
unwritten k j vs s n = ground (arith, other_key k j n)

bumped : (k : Key) (s : Store) → (bump k s).counters k ≡ s.counters k + 1
bumped k s = ground (arith, same_key_refl k)

popped_from-other :
    (k j : Key) (s : Store) (vs : List ℕ) → k ≢ j → (popped_from k s vs).0.lists j ≡ s.lists j
popped_from-other k j s [] n = refl
popped_from-other k j s (v ∷ vs) n = unwritten k j vs s n

popped_from-counters :
    (k j : Key) (s : Store) (vs : List ℕ) → (popped_from k s vs).0.counters j ≡ s.counters j
popped_from-counters k j s [] = refl
popped_from-counters k j s (v ∷ vs) = refl

popped_from-cons :
    (k : Key) (s : Store) (v : ℕ) (vs ws : List ℕ)
    → ws ≡ v ∷ vs
    → ((popped_from k s ws).1 ≡ some v) × ((popped_from k s ws).0.lists k ≡ vs)
popped_from-cons k s v vs [] e = ground (arith, e)
popped_from-cons k s v vs (x ∷ ws) e = (ground (arith, e), ground (arith, e, same_key_refl k))

popped_from-nil : (k : Key) (s : Store) (ws : List ℕ) → ws ≡ [] → (popped_from k s ws).1 ≡ none
popped_from-nil k s [] e = refl
popped_from-nil k s (x ∷ ws) e = ground (arith, e)

popped_from-empty :
    (k : Key) (s : Store) (ws : List ℕ)
    → ws ≡ []
    → s.lists k ≡ []
    → (popped_from k s ws).0.lists k ≡ []
popped_from-empty k s [] e f = f
popped_from-empty k s (x ∷ ws) e f = ground (arith, e)

abbrev memory : Queues
memory = record {
  Store = Store;
  counter = λ k s. s.counters k;
  entries = λ k s. s.lists k;
  incr = λ k s. (bump k s, s.counters k + 1);
  rpush = λ k v s. put_list k (s.lists k ++ v ∷ []) s;
  lpop = λ k s. popped_from k s (s.lists k);
  incr-reply = λ k s. refl;
  counter-incr = bumped;
  entries-incr = λ k j s n. refl;
  entries-rpush = λ k v s. written k (s.lists k ++ v ∷ []) s;
  entries-rpush_other = λ k j v s n. unwritten k j (s.lists k ++ v ∷ []) s n;
  counter-rpush = λ k j v s n. refl;
  lpop-cons = λ k s v vs e. popped_from-cons k s v vs (s.lists k) e;
  lpop-nil = λ k s e. popped_from-nil k s (s.lists k) e;
  entries-lpop_nil = λ k s e. popped_from-empty k s (s.lists k) e e;
  entries-lpop = λ k j s n. popped_from-other k j s (s.lists k) n;
  counter-lpop = λ k j s. popped_from-counters k j s (s.lists k);
}

abbrev empty : Store
empty = record { counters = λ k. 0; lists = λ k. [] }

-- Two requests push in the opposite order of their numbers, the second one twice, of which one is lost; the second one is answered after the first has
-- timed out.
abbrev crossing : List Event
crossing =
    incremented 0
    ∷ incremented 1
    ∷ request_repeated 1
    ∷ pushed 1
    ∷ engine_repeated
    ∷ pushed 0
    ∷ task_popped 700
    ∷ result_pushed
    ∷ task_popped 900
    ∷ pop_fails 0
    ∷ result_pushed
    ∷ result_popped 1
    ∷ []

-- The value of an option, or `a` for none.
abbrev or_else {ℓ} : {A : Type ℓ} → A → Option A → A
or_else a none = a
or_else a (some b) = b

abbrev crossed : System memory
crossed = or_else (start memory empty) (run memory crossing (start memory empty))

crossed-run : run memory crossing (start memory empty) ≡ some crossed
unfolding run step
crossed-run = refl

answers_genuine_example :
    (has 2 700 crossed.delays ≡ true) × ((j : ℕ) → job_of (crossed.requests j) ≡ some 2 → j ≡ 1)
unfolding run step
answers_genuine_example =
    answers_genuine memory empty crossing crossed 1 2 700 (λ k. refl) crossed-run refl
