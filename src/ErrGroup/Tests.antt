-- ===== src/ErrGroup/Tests.antt =====
-- Groups with a limit of two and without one, runs of them, and the theorems at these runs.
use go_examples.Base.{
  ℕ, ◌≤◌, ◌<◌, ◌≡◌, refl, ◌⊎◌, true, false, List, [], ◌∷◌, map, Option, none, some, ltb, ltb→lt,
  arith,
}
use go_examples.ErrGroup.{
  FetchError, Group, fetch_result, stored, failed, Fetches, begin_fetches, active_count, Event,
  started, parent_ends, timer_fires, context_seen, step, run, fetch_all,
}
use go_examples.ErrGroup.Fetching.{fetch_all_lem, active_count_bounded}

abbrev head_error : List FetchError → Option FetchError
head_error [] = none
head_error (e ∷ es) = some e

limit_kept : (n l : ℕ) → some 2 ≡ some l → ltb n 2 ≡ true → n < l
limit_kept n l e h = ground (arith, e, ltb→lt n 2 h)

abbrev two_at_once : Group
two_at_once = record {
  limit = some 2;
  admits = λ n. ltb n 2;
  wait = head_error;
  admits-limit = limit_kept;
  wait-nil = refl;
  wait-cons = λ e es. refl;
}

-- The second fetch is done before the first one, and its slot goes to the third.
abbrev reordered : List Event
reordered = started ∷ started ∷ timer_fires 1 ∷ started ∷ timer_fires 2 ∷ timer_fires 0 ∷ []

abbrev gathered : Fetches
gathered = record {
  ids = 7 ∷ 8 ∷ 9 ∷ [];
  slots = stored ∷ stored ∷ stored ∷ [];
  errors = [];
  parent_done = false;
}

reordered-run : run two_at_once reordered (begin_fetches (7 ∷ 8 ∷ 9 ∷ [])) ≡ some gathered
unfolding run step
reordered-run = refl

-- A third goroutine does not start beside two active ones.
full-step :
    run two_at_once (started ∷ started ∷ started ∷ []) (begin_fetches (7 ∷ 8 ∷ 9 ∷ [])) ≡ none
unfolding run step
full-step = refl

-- The parent ends while the second fetch is active.
abbrev ended : List Event
ended = started ∷ timer_fires 0 ∷ started ∷ parent_ends ∷ context_seen 1 ∷ []

abbrev lost : Fetches
lost = record {
  ids = 7 ∷ 8 ∷ [];
  slots = stored ∷ failed ∷ [];
  errors = record { of_id = 8 } ∷ [];
  parent_done = true;
}

ended-run : run two_at_once ended (begin_fetches (7 ∷ 8 ∷ [])) ≡ some lost
unfolding run step
ended-run = refl

fetch_all_example :
    (fetch_all two_at_once lost ≡ (some (map fetch_result (7 ∷ 8 ∷ [])), none))
    ⊎ ((e : FetchError) × (rest : List FetchError) × (lost.errors ≡ e ∷ rest)
        × (fetch_all two_at_once lost ≡ (none, some e))
        × (lost.parent_done ≡ true))
fetch_all_example = fetch_all_lem two_at_once (7 ∷ 8 ∷ []) ended lost ended-run refl

active_count_bounded_instance : active_count gathered.slots ≤ 2
active_count_bounded_instance =
    active_count_bounded two_at_once (7 ∷ 8 ∷ 9 ∷ []) reordered gathered 2 reordered-run refl
