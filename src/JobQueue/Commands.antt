-- ===== src/JobQueue/Commands.antt =====
-- What the commands on the server do to the results.
use go_examples.Base.{
  ℕ, ◌+◌, ◌==◌, ==_iff, ◌≤◌, ◌<◌, ◌≡◌, refl, ap, ◌∙◌, inl, inr, true, List, [], ◌∷◌, some, arith,
  count, count-append, Bool-cases,
}
use go_examples.JobQueue.Server.{Key, counter_key, tasks, results_of, Queues}
use go_examples.JobQueue.{idle, working, System}
use go_examples.JobQueue.Invariant.{has, IsSound}

module _ (q : Queues) where
  open q use {
    Store, counter, entries, incr, rpush, lpop, counter-incr, entries-incr, entries-rpush,
    entries-rpush_other, counter-rpush, lpop-cons, lpop-nil, entries-lpop, entries-lpop_nil,
    counter-lpop,
  }

  -- A server whose results are of jobs that the engine took.
  store-IsSound :
      (s : System q) (st : Store)
      → IsSound q s
      → counter counter_key s.store ≤ counter counter_key st
      → ((job v : ℕ) → 0 < count v (entries (results_of job) st) → has job v s.delays ≡ true)
      → IsSound q (record s { store = st })
  store-IsSound s st h c g = record {
    bound = λ i job e. omega (arith, c, h.bound i job e);
    distinct = h.distinct;
    at_work = h.at_work;
    genuine = g;
    own = h.own;
  }

  pub incr-IsSound :
      (s : System q) → IsSound q s → IsSound q (record s { store = (incr counter_key s.store).0 })
  incr-IsSound s h =
      store-IsSound s (incr counter_key s.store).0 h
        (omega (arith, counter-incr counter_key s.store))
        (λ job v l.
          let e =
            ap (count v)
              (entries-incr counter_key (results_of job) s.store (λ e. ground (arith, e))) in
          h.genuine job v (omega (arith, e, l)))

  pub push-IsSound :
      (id : ℕ) (s : System q)
      → IsSound q s
      → IsSound q (record s { store = rpush tasks id s.store })
  push-IsSound id s h =
      store-IsSound s (rpush tasks id s.store) h
        (omega (arith, counter-rpush tasks counter_key id s.store (λ e. ground (arith, e))))
        (λ job v l.
          let e =
            ap (count v)
              (entries-rpush_other tasks (results_of job) id s.store (λ e. ground (arith, e))) in
          h.genuine job v (omega (arith, e, l)))

  pop_inv :
      (k : Key) (st : Store) (v : ℕ) (xs : List ℕ)
      → entries k st ≡ xs
      → (lpop k st).1 ≡ some v
      → (vs : List ℕ) × (entries k st ≡ v ∷ vs) × (entries k (lpop k st).0 ≡ vs)
  pop_inv k st v [] e r = ground (arith, lpop-nil k st e, r)
  pop_inv k st v (x ∷ xs) e r =
      let (p, t) = lpop-cons k st x xs e in
      let y : x ≡ v = ground (arith, p, r) in (xs, e ∙ ap (λ z. z ∷ xs) y, t)

  pub lose_task-IsSound :
      (s : System q) → IsSound q s → IsSound q (record s { store = (lpop tasks s.store).0 })
  lose_task-IsSound s h =
      store-IsSound s (lpop tasks s.store).0 h
        (omega (arith, counter-lpop tasks counter_key s.store))
        (λ job v l.
          let e =
            ap (count v) (entries-lpop tasks (results_of job) s.store (λ e. ground (arith, e))) in
          h.genuine job v (omega (arith, e, l)))

  pub pop_task-IsSound :
      (job d : ℕ) (s : System q)
      → IsSound q s
      → IsSound q (record s {
        store = (lpop tasks s.store).0;
        engine = working job d;
        delays = (job, d) ∷ s.delays;
      })
  pop_task-IsSound job d s h =
      let k = lose_task-IsSound s h in
      record {
        bound = k.bound;
        distinct = k.distinct;
        at_work = λ j e p. ground (arith, p, ==_iff j job, ==_iff e d);
        genuine = λ j v l. ground (arith, k.genuine j v l);
        own = λ i j v p. ground (arith, k.own i j v p);
      }

  count_after :
      (id job v w : ℕ) (st : Store) (vs : List ℕ)
      → entries (results_of id) st ≡ v ∷ vs
      → entries (results_of id) (lpop (results_of id) st).0 ≡ vs
      → count w (entries (results_of job) (lpop (results_of id) st).0)
        ≤ count w (entries (results_of job) st)
  count_after id job v w st vs e t = elim (Bool-cases (id == job)) [
    | inl p ↦
        let l : count w (entries (results_of id) (lpop (results_of id) st).0)
            ≤ count w (entries (results_of id) st) =
          ground (arith, ap (count w) e, ap (count w) t) in
        ground (arith, l, ==_iff id job, p)
    | inr p ↦
        let f = ap (count w) (
          entries-lpop (results_of id) (results_of job) st
            (λ r. ground (arith, r, ==_iff id job, p))) in
        omega (arith, f)
  ]

  after_pop :
      (id job w : ℕ) (st : Store) (xs : List ℕ)
      → entries (results_of id) st ≡ xs
      → count w (entries (results_of job) (lpop (results_of id) st).0)
        ≤ count w (entries (results_of job) st)
  after_pop id job w st (v ∷ vs) e =
      count_after id job v w st vs e (lpop-cons (results_of id) st v vs e).1
  after_pop id job w st [] e = elim (Bool-cases (id == job)) [
    | inl p ↦
        let z : count w (entries (results_of id) (lpop (results_of id) st).0) ≡ 0 =
          ap (count w) (entries-lpop_nil (results_of id) st e) in
        ground (arith, z, ==_iff id job, p)
    | inr p ↦
        let f = ap (count w) (
          entries-lpop (results_of id) (results_of job) st
            (λ r. ground (arith, r, ==_iff id job, p))) in
        omega (arith, f)
  ]

  -- Fewer results.
  pub lose_result-IsSound :
      (id : ℕ) (s : System q)
      → IsSound q s
      → IsSound q (record s { store = (lpop (results_of id) s.store).0 })
  lose_result-IsSound id s h =
      store-IsSound s (lpop (results_of id) s.store).0 h
        (omega (arith, counter-lpop (results_of id) counter_key s.store))
        (λ job v l.
          h.genuine job v
            (omega (arith, l, after_pop id job v s.store (entries (results_of id) s.store) refl)))

  pub popped_genuine :
      (id v : ℕ) (s : System q)
      → IsSound q s
      → (lpop (results_of id) s.store).1 ≡ some v
      → has id v s.delays ≡ true
  popped_genuine id v s h r =
      let (vs, e, t) = pop_inv (results_of id) s.store v (entries (results_of id) s.store) refl r in
      h.genuine id v (ground (arith, ap (count v) e))

  pushed_genuine :
      (job d v : ℕ) (s : System q)
      → IsSound q s
      → has job d s.delays ≡ true
      → 0 < count v (entries (results_of job) s.store) + count v (d ∷ [])
      → has job v s.delays ≡ true
  pushed_genuine job d v s h w l = elim (Bool-cases (d == v)) [
    | inl p ↦ ground (arith, w, p, ==_iff d v)
    | inr p ↦ h.genuine job v (ground (arith, l, p))
  ]

  result_genuine :
      (job d k v : ℕ) (s : System q)
      → IsSound q s
      → has job d s.delays ≡ true
      → 0 < count v (entries (results_of k) (rpush (results_of job) d s.store))
      → has k v s.delays ≡ true
  result_genuine job d k v s h w l = elim (Bool-cases (job == k)) [
    | inr p ↦
        let f = ap (count v) (
          entries-rpush_other (results_of job) (results_of k) d s.store
            (λ r. ground (arith, r, ==_iff job k, p))) in
        h.genuine k v (omega (arith, f, l))
    | inl p ↦
        let l' : 0 < count v (entries (results_of job) (rpush (results_of job) d s.store)) =
          ground (arith, l, ==_iff job k, p) in
        let e =
          ap (count v) (entries-rpush (results_of job) d s.store)
          ∙ count-append v (entries (results_of job) s.store) (d ∷ []) in
        let g : has job v s.delays ≡ true = pushed_genuine job d v s h w (omega (arith, l', e)) in
        ground (arith, g, ==_iff job k, p)
  ]

  pub push_result-IsSound :
      (job d : ℕ) (s : System q)
      → IsSound q s
      → has job d s.delays ≡ true
      → IsSound q (record s { store = rpush (results_of job) d s.store })
  push_result-IsSound job d s h w =
      store-IsSound s (rpush (results_of job) d s.store) h
        (omega
          (arith, counter-rpush (results_of job) counter_key d s.store (λ e. ground (arith, e))))
        (λ k v l. result_genuine job d k v s h w l)

  pub rest-IsSound : (s : System q) → IsSound q s → IsSound q (record s { engine = idle })
  rest-IsSound s h = record {
    bound = h.bound;
    distinct = h.distinct;
    at_work = λ job d e. ground (arith, e);
    genuine = h.genuine;
    own = h.own;
  }
