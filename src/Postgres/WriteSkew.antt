-- ===== src/Postgres/WriteSkew.antt =====
-- What the isolation level decides.
use mathlib.Core.Path.{subst}
use go_examples.Base.{
  sym, ℕ, ◌+◌, ◌≤◌, ◌≡◌, refl, ◌⊎◌, inl, inr, Bool, true, false, Option, none, some, Result, ok,
  err, arith, leb, Bool-cases,
}
use go_examples.Postgres.{
  PgError, is_serialization_failure, Doctors, both, on_call, number, Fault, RetryFaults, retry_bob,
  Faults, check_invariant, finish_bob, first_error, commit_both, first_fault, write_skew,
  update_bob, count_and_update, begin_retry, commit_tx, update_and_commit,
}

commit_tx-on_call :
    (fault : Fault) (d d' : Doctors)
    → 1 ≤ on_call d
    → 1 ≤ on_call d'
    → 1 ≤ on_call (commit_tx fault d d').0
commit_tx-on_call none d d' h h' = h'
commit_tx-on_call (some e) d d' h h' = h

update_and_commit-on_call :
    (f : RetryFaults) (fault : Fault) (d : Doctors)
    → 1 ≤ on_call d
    → 1 ≤ on_call (record d { bob = false })
    → 1 ≤ on_call (update_and_commit f fault d).0
update_and_commit-on_call f (some e) d h h' = h
update_and_commit-on_call f none d h h' =
    commit_tx-on_call f.commit d (record d { bob = false }) h h'

two_left : (a b : Bool) → leb (number a + number b) 1 ≡ false → 1 ≤ number a + 0
two_left true b h = omega arith
two_left false true h = ground (arith, h)
two_left false false h = ground (arith, h)

count_and_update-on_call :
    (f : RetryFaults) (fault : Fault) (d : Doctors)
    → 1 ≤ on_call d
    → 1 ≤ on_call (count_and_update f fault d).0
count_and_update-on_call f (some e) d h = h
count_and_update-on_call f none d h = elim (Bool-cases (leb (on_call d) 1)) [
  | inl t ↦ rw t (commit_tx-on_call f.commit d d h h)
  | inr t ↦ rw t (update_and_commit-on_call f f.update d h (two_left d.alice d.bob t))
]

-- A retry never lets the last doctor go.
begin_retry-on_call :
    (f : RetryFaults) (fault : Fault) (d : Doctors)
    → 1 ≤ on_call d
    → 1 ≤ on_call (begin_retry f fault d).0
begin_retry-on_call f (some e) d h = h
begin_retry-on_call f none d h = count_and_update-on_call f f.count d h

-- SERIALIZABLE: once alice's transaction is committed, bob's UPDATE or COMMIT is a serialization
-- failure.
abbrev pub Serialized : Faults → Type 0
Serialized f =
    (e : PgError) × (is_serialization_failure e ≡ true)
    × ((f.update_bob ≡ some e) ⊎ ((f.update_bob ≡ none) × (f.commit_bob ≡ some e)))

check_invariant-doctors :
    (fault : Fault) (x : Doctors × Result PgError (Unit {0})) → (check_invariant fault x).0 ≡ x.0
check_invariant-doctors fault (d, err e) = refl
check_invariant-doctors none (d, ok u) = refl
check_invariant-doctors (some e) (d, ok u) = refl

finish_bob-on_call :
    (f : RetryFaults) (fault : Fault) (d : Doctors) (e : PgError)
    → fault ≡ some e
    → is_serialization_failure e ≡ true
    → 1 ≤ on_call d
    → 1 ≤ on_call (finish_bob f fault d).0
unfolding retry_bob
finish_bob-on_call f none d e h s l = ground (arith, h)
finish_bob-on_call f (some x) d e h s l =
    let t : is_serialization_failure x ≡ true = ground (arith, h, s) in
    rw t (begin_retry-on_call f f.begin d l)

commit_both-on_call :
    (f : Faults) (bob_err fault : Fault) (e : PgError)
    → first_error bob_err f.commit_bob ≡ some e
    → is_serialization_failure e ≡ true
    → 1 ≤ on_call (commit_both f bob_err fault both).0
commit_both-on_call f bob_err (some x) e h s = omega arith
commit_both-on_call f bob_err none e h s =
    let d = record both { alice = false } in
    let x = finish_bob f.retry (first_error bob_err f.commit_bob) d in
    subst (λ d. 1 ≤ on_call d) (sym (check_invariant-doctors f.check x))
      (finish_bob-on_call f.retry (first_error bob_err f.commit_bob) d e h s (omega arith))

update_bob-on_call :
    (f : Faults) (fault : Fault) (e : PgError)
    → is_serialization_failure e ≡ true
    → (fault ≡ some e) ⊎ ((fault ≡ none) × (f.commit_bob ≡ some e))
    → 1 ≤ on_call (update_bob f fault both).0
update_bob-on_call f none e s (inl h) = ground (arith, h)
update_bob-on_call f none e s (inr (h, c)) = commit_both-on_call f none f.commit_alice e c s
update_bob-on_call f (some x) e s (inr (h, c)) = ground (arith, h)
update_bob-on_call f (some x) e s (inl h) =
    let t : is_serialization_failure x ≡ true = ground (arith, h, s) in
    rw t (commit_both-on_call f (some x) f.commit_alice e h s)

skew-on_call :
    (f : Faults) (fault : Option PgError)
    → 1 ≤ on_call (update_bob f f.update_bob both).0
    → 1
      ≤ on_call
          (elim fault as (λ x. Doctors × Result PgError ℕ) [
            | some e ↦ (both, err e)
            | none ↦ update_bob f f.update_bob both
          ]).0
skew-on_call f none h = h
skew-on_call f (some e) h = omega arith

-- When bob is rejected by a serialization failure at his UPDATE or COMMIT, whichever other
-- statements fail, writeSkew on two doctors on call leaves at least
-- one on call.
pub write_skew_serializable : (f : Faults) → Serialized f → 1 ≤ on_call (write_skew f both).0
unfolding write_skew
write_skew_serializable f (e, s, u) =
    skew-on_call f (first_fault f) (update_bob-on_call f f.update_bob e s u)

-- Nothing fails, as READ COMMITTED allows.
abbrev pub Quiet : Faults → Type 0
Quiet f =
    (first_fault f ≡ none)
    × (f.update_bob ≡ none)
    × (f.commit_alice ≡ none)
    × (f.commit_bob ≡ none)
    × (f.check ≡ none)

-- When no statement fails, writeSkew commits both transactions and reports no doctor on call, from
-- any rows.
pub write_skew_anomaly :
    (f : Faults) (d : Doctors)
    → Quiet f
    → write_skew f d ≡ (record { alice = false; bob = false }, ok 0)
unfolding write_skew
write_skew_anomaly f d (a, b, c, e, g) = ground (arith, a, b, c, e, g)
