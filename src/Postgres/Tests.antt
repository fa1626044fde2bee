-- ===== src/Postgres/Tests.antt =====
-- The two runs of writeSkew in main.go.
use go_examples.Base.{◌≤◌, ◌≡◌, refl, inr, true, false, Option, none, some, ok, leaf}
use go_examples.Postgres.{
  PgError, pg_error, is_serialization_failure, both, on_call, RetryFaults, retry_bob, Faults,
  write_skew, setup_schema, reset_doctors,
}
use go_examples.Postgres.WriteSkew.{write_skew_serializable, write_skew_anomaly}

abbrev no_retry_faults : RetryFaults
no_retry_faults = record { begin = none; count = none; update = none; commit = none }

abbrev with_bob : Option PgError → Faults
with_bob fault = record {
  begin_alice = none;
  begin_bob = none;
  count_alice = none;
  count_bob = none;
  update_alice = none;
  update_bob = none;
  commit_alice = none;
  commit_bob = fault;
  retry = no_retry_faults;
  check = none;
}

abbrev rejected : PgError
rejected = leaf (pg_error "40001")

rejected_code : is_serialization_failure rejected ≡ true
unfolding is_serialization_failure
rejected_code = refl

write_skew_serializable_example : 1 ≤ on_call (write_skew (with_bob (some rejected)) both).0
write_skew_serializable_example =
    write_skew_serializable (with_bob (some rejected)) (rejected, rejected_code, inr (refl, refl))

serializable_run :
    write_skew (with_bob (some rejected)) both ≡ (record { alice = false; bob = true }, ok 1)
unfolding write_skew retry_bob is_serialization_failure
serializable_run = refl

write_skew_anomaly_instance :
    write_skew (with_bob none) both ≡ (record { alice = false; bob = false }, ok 0)
write_skew_anomaly_instance = write_skew_anomaly (with_bob none) both (refl, refl, refl, refl, refl)

schema_sets_both : setup_schema none (record { alice = false; bob = false }) ≡ (both, ok tt)
unfolding setup_schema
schema_sets_both = refl

reset_sets_both : reset_doctors none (record { alice = false; bob = true }) ≡ (both, ok tt)
unfolding reset_doctors
reset_sets_both = refl
