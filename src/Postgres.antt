-- ===== src/Postgres.antt =====
-- examples/postgres/main.go: the doctors on call. PostgreSQL is not part of the repository: whether
-- a statement fails, and with which SQLSTATE, is an argument. A transaction's update is in force
-- for the others once it is committed, as it is from READ COMMITTED on.
pub mod WriteSkew
mod Tests
use Prim.Native.String.{String}
use text.Mathlib.Text.{◌==◌ as str_eq}
use go_examples.Base.{
  ℕ, ◌+◌, Bool, true, false, Option, none, some, Result, ok, err, Error, leaf, wrap, ◌>>=◌, ◌>>◌,
  leb, ◌==◌, if◌then◌else◌,
}

-- pgconn.PgError by its code, and the errors of the connection.
pub data Leaf : Type 0 where
  pg_error : String → Leaf
  connection_error : Leaf

pub data Context : Type 0 where
  setting_up_schema resetting_doctors beginning_alice beginning_bob counting : Context
  alice_going_off bob_going_off committing_alice committing_bob : Context
  beginning_retry retry_counting retry_going_off checking_invariant : Context

abbrev pub PgError : Type 0
PgError = Error Context Leaf

abbrev pub serialization_failure : String
serialization_failure = "40001"

unfoldable pub is_serialization_failure : PgError → Bool
is_serialization_failure (leaf (pg_error code)) = str_eq code serialization_failure
is_serialization_failure (leaf connection_error) = false
is_serialization_failure (wrap c e) = is_serialization_failure e

-- The committed rows of `doctors`.
pub record Doctors : Type 0 where
  pub alice : Bool
  pub bob : Bool

abbrev pub number : Bool → ℕ
number true = 1
number false = 0

-- `SELECT COUNT(*) FROM doctors WHERE on_call`
abbrev pub on_call : Doctors → ℕ
on_call d = number d.alice + number d.bob

abbrev pub both : Doctors
both = record { alice = true; bob = true }

-- The error of each statement, if any. A statement that fails has no effect; an error of a COMMIT
-- whose effect is unknown to the client is not covered.
abbrev pub Fault : Type 0
Fault = Option PgError

abbrev pub exec : Fault → Context → Doctors → Doctors → Doctors × Result PgError (Unit {0})
exec none c d d' = (d', ok tt)
exec (some e) c d d' = (d, err (wrap c e))

unfoldable pub setup_schema : Fault → Doctors → Doctors × Result PgError (Unit {0})
setup_schema fault d = exec fault setting_up_schema d both

unfoldable pub reset_doctors : Fault → Doctors → Doctors × Result PgError (Unit {0})
reset_doctors fault d = exec fault resetting_doctors d both

pub record RetryFaults : Type 0 where
  pub begin : Fault
  pub count : Fault
  pub update : Fault
  pub commit : Fault

-- A COMMIT whose error is returned as it is.
abbrev pub commit_tx : Fault → Doctors → Doctors → Doctors × Result PgError (Unit {0})
commit_tx none d d' = (d', ok tt)
commit_tx (some e) d d' = (d, err e)

abbrev pub update_and_commit : RetryFaults → Fault → Doctors → Doctors × Result PgError (Unit {0})
update_and_commit f (some e) d = (d, err (wrap retry_going_off e))
update_and_commit f none d = commit_tx f.commit d (record d { bob = false })

abbrev pub count_and_update : RetryFaults → Fault → Doctors → Doctors × Result PgError (Unit {0})
count_and_update f (some e) d = (d, err (wrap retry_counting e))
count_and_update f none d =
    if leb (on_call d) 1 then commit_tx f.commit d d else update_and_commit f f.update d

abbrev pub begin_retry : RetryFaults → Fault → Doctors → Doctors × Result PgError (Unit {0})
begin_retry f (some e) d = (d, err (wrap beginning_retry e))
begin_retry f none d = count_and_update f f.count d

unfoldable pub retry_bob : RetryFaults → Doctors → Doctors × Result PgError (Unit {0})
retry_bob f d = begin_retry f f.begin d

pub record Faults : Type 0 where
  pub begin_alice : Fault
  pub begin_bob : Fault
  pub count_alice : Fault
  pub count_bob : Fault
  pub update_alice : Fault
  pub update_bob : Fault
  pub commit_alice : Fault
  pub commit_bob : Fault
  pub retry : RetryFaults
  pub check : Fault

-- The checks after both transactions: the number of doctors on call.
abbrev pub check_invariant :
    Fault → Doctors × Result PgError (Unit {0}) → Doctors × Result PgError ℕ
check_invariant fault (d, err e) = (d, err e)
check_invariant none (d, ok u) = (d, ok (on_call d))
check_invariant (some e) (d, ok u) = (d, err (wrap checking_invariant e))

-- The `switch` on bobErr, with alice's transaction committed in `d`.
abbrev pub finish_bob : RetryFaults → Fault → Doctors → Doctors × Result PgError (Unit {0})
finish_bob f none d = (record d { bob = false }, ok tt)
finish_bob f (some e) d =
    if is_serialization_failure e then retry_bob f d else (d, err (wrap committing_bob e))

-- `if bobErr == nil { bobErr = txBob.Commit(ctx) }`
abbrev pub first_error : Fault → Fault → Fault
first_error none commit = commit
first_error (some e) commit = some e

-- From the COMMIT of alice's transaction on.
abbrev pub commit_both : Faults → Fault → Fault → Doctors → Doctors × Result PgError ℕ
commit_both f bob_err (some e) d = (d, err (wrap committing_alice e))
commit_both f bob_err none d =
    check_invariant f.check
      (finish_bob f.retry (first_error bob_err f.commit_bob) (record d { alice = false }))

-- bob's UPDATE: an error other than a serialization failure ends writeSkew.
abbrev pub update_bob : Faults → Fault → Doctors → Doctors × Result PgError ℕ
update_bob f none d = commit_both f none f.commit_alice d
update_bob f (some e) d =
    if is_serialization_failure e
    then commit_both f (some e) f.commit_alice d
    else (d, err (wrap bob_going_off e))

-- The first five statements, which change no committed row: the first that fails ends writeSkew.
abbrev pub first_fault : Faults → Option PgError
first_fault f = elim f.begin_alice [
  | some e ↦ some (wrap beginning_alice e)
  | none ↦ elim f.begin_bob [
    | some e ↦ some (wrap beginning_bob e)
    | none ↦ elim f.count_alice [
      | some e ↦ some (wrap counting e)
      | none ↦ elim f.count_bob [
        | some e ↦ some (wrap counting e)
        | none ↦ elim f.update_alice [ some e ↦ some (wrap alice_going_off e) | none ↦ none ]
      ]
    ]
  ]
]

unfoldable pub write_skew : Faults → Doctors → Doctors × Result PgError ℕ
unfolding retry_bob is_serialization_failure
write_skew f d = elim (first_fault f) [ some e ↦ (d, err e) | none ↦ update_bob f f.update_bob d ]
