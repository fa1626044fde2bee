-- ===== src/Grpc/Countdown.antt =====
-- What the countdown streams.
use go_examples.Base.{
  ℕ, zero, suc, ◌+◌, ◌≤◌, ◌<◌, ◌≡◌, refl, ap, ◌∙◌, List, [], ◌∷◌, Option, none, some, arith, take,
}
use go_examples.Grpc.{pos, negsuc, RpcError, count_from, countdown}

-- n, n - 1, ..., 0
abbrev pub down_from : ℕ → List ℕ
down_from zero = 0 ∷ []
down_from (suc n) = suc n ∷ down_from n

all_sent :
    (fails : ℕ → Option RpcError) (i n : ℕ)
    → ((j : ℕ) → i ≤ j → j ≤ i + n → fails j ≡ none)
    → count_from fails i n ≡ (down_from n, none)
unfolding count_from
all_sent fails i zero h = ground (arith, h i (omega arith) (omega arith))
all_sent fails i (suc n) h = ground (
  arith,
  h i (omega arith) (omega arith),
  all_sent fails (suc i) n (λ j l m. h j (omega arith) (omega arith)),
)

sent_until :
    (fails : ℕ → Option RpcError) (i n k : ℕ) (e : RpcError)
    → k ≤ n
    → ((j : ℕ) → i ≤ j → j < i + k → fails j ≡ none)
    → fails (i + k) ≡ some e
    → count_from fails i n ≡ (take k (down_from n), some e)
unfolding count_from
sent_until fails i zero zero e l h f =
    let g : fails i ≡ some e = ap fails (omega arith) ∙ f in ground (arith, g)
sent_until fails i (suc n) zero e l h f =
    let g : fails i ≡ some e = ap fails (omega arith) ∙ f in ground (arith, g)
sent_until fails i zero (suc k) e l h f = ground (arith, l)
sent_until fails i (suc n) (suc k) e l h f = ground (
  arith,
  h i (omega arith) (omega arith),
  sent_until fails (suc i) n k e (omega arith) (λ j m o. h j (omega arith) (omega arith))
      (ap fails (omega arith) ∙ f),
)

-- A countdown from n whose Sends do not fail streams n, ..., 0 and then ends without an error; one from a
-- negative number streams nothing.
pub countdown_completes :
    (fails : ℕ → Option RpcError) (n : ℕ)
    → ((j : ℕ) → j ≤ n → fails j ≡ none)
    → (countdown fails (pos n) ≡ (down_from n, none)) × (countdown fails (negsuc n) ≡ ([], none))
unfolding countdown
countdown_completes fails n h = (all_sent fails 0 n (λ j l m. h j (omega arith)), refl)

-- A countdown from n streams n, n - 1, ... up to the first Send that fails, sends nothing after it, and
-- returns the error of that Send.
pub countdown_stops :
    (fails : ℕ → Option RpcError) (n k : ℕ) (e : RpcError)
    → k ≤ n
    → ((j : ℕ) → j < k → fails j ≡ none)
    → fails k ≡ some e
    → countdown fails (pos n) ≡ (take k (down_from n), some e)
unfolding countdown
countdown_stops fails n k e l h f =
    sent_until fails 0 n k e l (λ j m o. h j (omega arith)) (ap fails (omega arith) ∙ f)
