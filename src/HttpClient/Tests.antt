-- ===== src/HttpClient/Tests.antt =====
-- A server that answers 503 twice, then 200; one that is down; a client error; a cancellation.
use go_examples.Base.{
  ℕ, zero, suc, ◌+◌, ◌<◌, ◌≡◌, refl, true, false, [], ◌∷◌, none, some, arith, ok, err, leaf, wrap,
  ltb, ◌==◌, if◌then◌else◌,
}
use go_examples.HttpClient.{
  Client, Env, unreachable, responded, HttpError, retryable, network, server_error,
  all_attempts_failed, cancelled_during_backoff, context_error, do_get, get_json,
}
use go_examples.HttpClient.Retries.{sum, get_json_decides, get_json_exhausts, get_json_cancelled}

abbrev client : Client
client = record { max_retries = 3; base_delay = 200 }

abbrev recovering : Env ℕ
recovering = record {
  exchange = λ i. if ltb i 2 then responded 503 none else responded 200 (some 7);
  cancelled = λ i. false;
}

abbrev unavailable : ℕ → HttpError
unavailable i = wrap retryable (leaf (server_error 503))

first_two :
    (i : ℕ)
    → i < 2
    → (do_get (recovering.exchange i) ≡ err (unavailable i)) × (true ≡ true) × (false ≡ false)
unfolding do_get
first_two zero h = (refl, refl, refl)
first_two (suc zero) h = (refl, refl, refl)
first_two (suc (suc i)) h = absurd (omega arith)

get_json_decides_instance :
    get_json client recovering ≡ record { result = ok 7; requests = 3; delays = 200 ∷ 400 ∷ [] }
unfolding do_get
get_json_decides_instance =
    get_json_decides client recovering unavailable 2 (ok 7) (omega arith) first_two refl refl
      (λ h. refl)

abbrev down : Env ℕ
down = record { exchange = λ i. unreachable; cancelled = λ i. i == 2 }

abbrev dead : Env ℕ
dead = record { exchange = λ i. unreachable; cancelled = λ i. false }

abbrev no_network : ℕ → HttpError
no_network i = wrap retryable (leaf network)

get_json_exhausts_example :
    ((get_json client dead).result ≡ err (wrap (all_attempts_failed 4) (no_network 3)))
    × ((get_json client dead).requests ≡ 4)
    × (sum (get_json client dead).delays + 200 ≡ 1600)
unfolding do_get
get_json_exhausts_example = get_json_exhausts client dead no_network (λ i h. (refl, refl, refl))

first_fails :
    (i : ℕ)
    → i < 2
    → (do_get (down.exchange i) ≡ err (no_network i)) × (true ≡ true) × (down.cancelled i ≡ false)
unfolding do_get
first_fails zero h = (refl, refl, refl)
first_fails (suc zero) h = (refl, refl, refl)
first_fails (suc (suc i)) h = absurd (omega arith)

get_json_cancelled_instance : get_json client down ≡ record {
  result = err (wrap cancelled_during_backoff (leaf context_error));
  requests = 2;
  delays = 200 ∷ [];
}
get_json_cancelled_instance =
    get_json_cancelled client down no_network 1 (omega arith) first_fails refl
