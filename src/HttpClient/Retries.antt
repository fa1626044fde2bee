-- ===== src/HttpClient/Retries.antt =====
-- Which attempt decides, how many requests are made and how long the client waits.
use go_examples.Base.{
  ℕ, zero, suc, ◌+◌, ◌-◌, ◌*◌, ◌^◌, ◌≤◌, ◌<◌, ◌≡◌, refl, sym, ap, ◌∙◌, Bool, true, false, List, [],
  ◌∷◌, ◌++◌, arith, Result, ok, err, leaf, wrap, if◌then◌else◌,
}
use native.Mathlib.Nat.{pow-suc}
use go_examples.HttpClient.{
  Client, Env, HttpError, is_retryable, all_attempts_failed, nil_error, cancelled_during_backoff,
  context_error, do_get, attempts_from, get_json,
}

suc-sub-one : (i : ℕ) → suc i - 1 ≡ i
suc-sub-one i = omega arith

pub sum : List ℕ → ℕ
sum [] = 0
sum (d ∷ ds) = d + sum ds

sum-append : (xs ys : List ℕ) → sum (xs ++ ys) ≡ sum xs + sum ys
unfolding sum
sum-append [] ys = omega arith
sum-append (x ∷ xs) ys = omega (arith, sum-append xs ys)

-- A result that ends the loop.
abbrev pub is_final : {A : Type 0} → Result HttpError A → Bool
is_final (ok a) = true
is_final (err e) = if is_retryable e then false else true

module _ {A : Type 0} (c : Client) (env : Env A) where
  -- The delays before the attempts 1, ..., k.
  abbrev pub delays_to : ℕ → List ℕ
  delays_to zero = []
  delays_to (suc k) = delays_to k ++ (c.base_delay * 2 ^ k) ∷ []

  abbrev pub Fails : ℕ → HttpError → Type 0
  Fails i e =
      (do_get (env.exchange i) ≡ err e) × (is_retryable e ≡ true) × (env.cancelled i ≡ false)

  attempt_fails :
      (n i : ℕ) (last e : HttpError)
      → Fails i e
      → attempts_from c env (suc n) i last (delays_to (i - 1))
        ≡ attempts_from c env n (i + 1) e (delays_to i)
  unfolding attempts_from
  attempt_fails n zero last e (r, t, w) = ground arith
  attempt_fails n (suc i) last e (r, t, w) = ground (arith, suc-sub-one i)

  module _ (errors : ℕ → HttpError) where
    -- lastErr before attempt `k`.
    abbrev pub last_error : ℕ → HttpError
    last_error zero = leaf nil_error
    last_error (suc k) = errors k

    advance :
        (k n : ℕ)
        → ((i : ℕ) → i < k → Fails i (errors i))
        → attempts_from c env (n + k) 0 (leaf nil_error) []
          ≡ attempts_from c env n k (last_error k) (delays_to (k - 1))
    advance zero n h = ap (λ m. attempts_from c env m 0 (leaf nil_error) []) (omega arith)
    advance (suc k) n h =
        rounds n k
        ∙ advance k (suc n) (λ i p. h i (omega arith))
        ∙ attempt_fails n k (last_error k) (errors k) (h k (omega arith))
        ∙ ap (λ m. attempts_from c env n m (errors k) (delays_to k)) (omega arith)
        ∙ ap (λ m. attempts_from c env n (suc k) (errors k) (delays_to m)) (sym (suc-sub-one k))
      where
        rounds :
            (n k : ℕ)
            → attempts_from c env (n + suc k) 0 (leaf nil_error) []
              ≡ attempts_from c env (suc n + k) 0 (leaf nil_error) []
        rounds n k = ap (λ m. attempts_from c env m 0 (leaf nil_error) []) (omega arith)

    final_step :
        (n k : ℕ) (last : HttpError) (r : Result HttpError A)
        → do_get (env.exchange k) ≡ r
        → is_final r ≡ true
        → (0 < k → env.cancelled k ≡ false)
        → attempts_from c env (suc n) k last (delays_to (k - 1))
          ≡ record { result = r; requests = k + 1; delays = delays_to k }
    unfolding attempts_from
    final_step n zero last (ok a) e f w = ground arith
    final_step n zero last (err x) e f w = ground arith
    final_step n (suc k) last (ok a) e f w = ground (arith, suc-sub-one k, w (omega arith))
    final_step n (suc k) last (err x) e f w = ground (arith, suc-sub-one k, w (omega arith))

    reach :
        (k n m : ℕ)
        → m ≡ n + k
        → ((i : ℕ) → i < k → Fails i (errors i))
        → attempts_from c env m 0 (leaf nil_error) []
          ≡ attempts_from c env n k (last_error k) (delays_to (k - 1))
    reach k n m e h = ap (λ j. attempts_from c env j 0 (leaf nil_error) []) e ∙ advance k n h

    -- The first attempt whose result is not a retryable error decides: GetJSON returns that result
    -- at once, after one request for each attempt and a doubled delay before each but the first.
    pub get_json_decides :
        (k : ℕ) (r : Result HttpError A)
        → k ≤ c.max_retries
        → ((i : ℕ) → i < k → Fails i (errors i))
        → do_get (env.exchange k) ≡ r
        → is_final r ≡ true
        → (0 < k → env.cancelled k ≡ false)
        → get_json c env ≡ record { result = r; requests = k + 1; delays = delays_to k }
    unfolding get_json
    get_json_decides k r p h e f w =
        reach k (suc (c.max_retries - k)) (c.max_retries + 1) (omega arith) h
        ∙ final_step (c.max_retries - k) k (last_error k) r e f w

    sum-delays_to : (k : ℕ) → sum (delays_to k) + c.base_delay ≡ c.base_delay * 2 ^ k
    unfolding sum
    sum-delays_to zero = omega arith
    sum-delays_to (suc k) = omega (
      arith,
      sum-append (delays_to k) ((c.base_delay * 2 ^ k) ∷ []),
      sum-delays_to k,
      ap (λ t. c.base_delay * t) (pow-suc 2 k),
    )

    exhausted :
        ((i : ℕ) → i ≤ c.max_retries → Fails i (errors i))
        → get_json c env ≡ record {
          result = err (wrap (all_attempts_failed (c.max_retries + 1)) (errors c.max_retries));
          requests = suc c.max_retries;
          delays = delays_to (suc c.max_retries - 1);
        }
    unfolding get_json attempts_from
    exhausted h =
        reach (suc c.max_retries) 0 (c.max_retries + 1) (omega arith) (λ i p. h i (omega arith))

    -- When every attempt fails with a retryable error, GetJSON gives up after maxRetries + 1
    -- requests with the last error wrapped, having slept baseDelay * (2 ^ maxRetries - 1) in all.
    pub get_json_exhausts :
        ((i : ℕ) → i ≤ c.max_retries → Fails i (errors i))
        → let o = get_json c env in
          (o.result ≡ err (wrap (all_attempts_failed (c.max_retries + 1)) (errors c.max_retries)))
          × (o.requests ≡ c.max_retries + 1)
          × (sum o.delays + c.base_delay ≡ c.base_delay * 2 ^ c.max_retries)
    get_json_exhausts h =
        rw (exhausted h)
          (refl, omega arith, rw (suc-sub-one c.max_retries) (sum-delays_to c.max_retries))

    -- A cancellation during the backoff before attempt `k` ends GetJSON with the context's error,
    -- and attempt `k` is not made.
    pub get_json_cancelled :
        (k : ℕ)
        → suc k ≤ c.max_retries
        → ((i : ℕ) → i < suc k → Fails i (errors i))
        → env.cancelled (suc k) ≡ true
        → get_json c env ≡ record {
          result = err (wrap cancelled_during_backoff (leaf context_error));
          requests = suc k;
          delays = delays_to k;
        }
    unfolding get_json attempts_from
    get_json_cancelled k p h w =
        reach (suc k) (suc (c.max_retries - suc k)) (c.max_retries + 1) (omega arith) h
        ∙ ground (arith, suc-sub-one k)
