-- ===== src/HttpClient.antt =====
-- examples/http-client/main.go. What the network answers to each attempt and how each backoff ends
-- are the environment's. Delays are nanoseconds; `float64(d) * math.Pow(2, n)` is taken as exact,
-- which it is below 2^53.
pub mod Retries
mod Tests
use go_examples.Base.{
  ℕ, zero, suc, ◌+◌, ◌-◌, ◌*◌, ◌^◌, ◌≡◌, Bool, true, false, List, [], ◌∷◌, ◌++◌, Option, none, some,
  Result, ok, err, Error, leaf, wrap, leb, ◌==◌, if◌then◌else◌,
}

pub record Client : Type 0 where
  pub max_retries : ℕ
  pub base_delay : ℕ

-- `NewClient`; the timeout is the transport's.
unfoldable pub new_client : ℕ → Client
new_client max_retries = record { max_retries = max_retries; base_delay = 200000000 }

pub data Leaf : Type 0 where
  bad_url network decode context_error nil_error : Leaf
  server_error client_error : ℕ → Leaf

-- `retryableError` wraps its cause, as the formats of fmt.Errorf do.
pub data Context : Type 0 where
  retryable build_request decode_response cancelled_during_backoff : Context
  all_attempts_failed : ℕ → Context

abbrev pub HttpError : Type 0
HttpError = Error Context Leaf

-- `errors.As(err, &retryable)`
abbrev pub is_retryable : HttpError → Bool
is_retryable (leaf e) = false
is_retryable (wrap retryable e) = true
is_retryable (wrap c e) = is_retryable e

-- How one exchange goes: the body decodes to a value or not.
pub data Exchange (A : Type 0) : Type 0 where
  unbuildable unreachable : Exchange A
  responded : ℕ → Option A → Exchange A

unfoldable pub do_get : {A : Type 0} → Exchange A → Result HttpError A
do_get unbuildable = err (wrap build_request (leaf bad_url))
do_get unreachable = err (wrap retryable (leaf network))
do_get (responded status body) =
    if leb 500 status
    then err (wrap retryable (leaf (server_error status)))
    else if leb 400 status
    then err (leaf (client_error status))
    else elim body [ none ↦ err (wrap decode_response (leaf decode)) | some a ↦ ok a ]

pub record Env (A : Type 0) : Type 0 where
  pub exchange : ℕ → Exchange A
  pub cancelled : ℕ → Bool  -- ctx.Done() wins the backoff before this attempt

-- The answer, with the requests made and the delays slept.
pub record Outcome (A : Type 0) : Type 0 where
  pub result : Result HttpError A
  pub requests : ℕ
  pub delays : List ℕ

module _ {A : Type 0} (c : Client) (env : Env A) where
  abbrev delay : ℕ → ℕ
  delay attempt = c.base_delay * 2 ^ (attempt - 1)

  abbrev finish : Result HttpError A → ℕ → List ℕ → Outcome A
  finish r n ds = record { result = r; requests = n; delays = ds }

  -- What follows the request: `rest` is the next round.
  abbrev answered : Result HttpError A → ℕ → List ℕ → (HttpError → Outcome A) → Outcome A
  answered (ok a) n ds rest = finish (ok a) n ds
  answered (err e) n ds rest = elim (is_retryable e) [ true ↦ rest e | false ↦ finish (err e) n ds ]

  -- The loop, by the rounds left, with the attempt's number and lastErr.
  unfoldable pub attempts_from : ℕ → ℕ → HttpError → List ℕ → Outcome A
  attempts_from zero attempt last ds =
      finish (err (wrap (all_attempts_failed (c.max_retries + 1)) last)) attempt ds
  attempts_from (suc n) attempt last ds =
      let slept = if attempt == 0 then ds else ds ++ delay attempt ∷ [] in
      let request : Outcome A =
        answered (do_get (env.exchange attempt)) (attempt + 1) slept
          (λ e. attempts_from n (attempt + 1) e slept) in
      if attempt == 0
      then request
      else if env.cancelled attempt
      then finish (err (wrap cancelled_during_backoff (leaf context_error))) attempt ds
      else request

  unfoldable pub get_json : Outcome A
  unfolding attempts_from
  get_json = attempts_from (c.max_retries + 1) 0 (leaf nil_error) []
