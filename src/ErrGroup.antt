-- ===== src/ErrGroup.antt =====
-- examples/errgroup/main.go: fetchAll and fetchWithLimit, with the goroutines of the group in any order.
-- golang.org/x/sync/errgroup is not part of the repository: the interface Group has what Go and Wait promise. A
-- step is the start of a goroutine or its return.
pub mod Slots
pub mod Fetching
mod Tests
use go_examples.Base.{
  ℕ, zero, suc, ◌+◌, ◌<◌, ◌≡◌, Bool, true, false, ◌||◌, List, [], ◌∷◌, ◌++◌, map, Option, none,
  some, if◌then◌else◌,
}

-- `fetch %d: %w` around the error of the context
pub record FetchError : Type 0 where
  pub of_id : ℕ

-- `admits n` says whether Go starts a function while n of them are active, under SetLimit or without it;
-- `wait` takes the errors in the order in which the functions returned them.
pub record Group : Type 0 where
  pub limit : Option ℕ
  pub admits : ℕ → Bool
  pub wait : List FetchError → Option FetchError
  pub admits-limit : (n l : ℕ) → limit ≡ some l → admits n ≡ true → n < l
  pub wait-nil : wait [] ≡ none
  pub wait-cons : (e : FetchError) (es : List FetchError) → wait (e ∷ es) ≡ some e

-- `result`; the value is `data-` and the number in `value`, and the zero result has none.
pub record FetchResult : Type 0 where
  pub id : ℕ
  pub value : Option ℕ

abbrev pub zero_result : FetchResult
zero_result = record { id = 0; value = none }

unfoldable pub fetch_result : ℕ → FetchResult
fetch_result id = record { id = id; value = some id }

-- A goroutine, with its place in the results: not started, in the select of `fetch`, and after it.
pub data Slot : Type 0 where
  pending active stored failed : Slot

pub record Fetches : Type 0 where
  pub ids : List ℕ
  pub slots : List Slot
  pub errors : List FetchError
  pub parent_done : Bool

abbrev pub all_pending : List ℕ → List Slot
all_pending [] = []
all_pending (id ∷ ids) = pending ∷ all_pending ids

abbrev pub begin_fetches : List ℕ → Fetches
begin_fetches ids = record { ids = ids; slots = all_pending ids; errors = []; parent_done = false }

abbrev pub active_count : List Slot → ℕ
active_count [] = 0
active_count (active ∷ ss) = suc (active_count ss)
active_count (pending ∷ ss) = active_count ss
active_count (stored ∷ ss) = active_count ss
active_count (failed ∷ ss) = active_count ss

-- The context of the group is done when the parent is, and from the first error.
abbrev pub has_error : List FetchError → Bool
has_error [] = false
has_error (e ∷ es) = true

abbrev pub is_done : Fetches → Bool
is_done f = f.parent_done || has_error f.errors

-- The loop of Go calls starts the functions in order.
abbrev pub start_next : List Slot → Option (List Slot)
start_next [] = none
start_next (pending ∷ ss) = some (active ∷ ss)
start_next (active ∷ ss) = elim (start_next ss) [ none ↦ none | some ts ↦ some (active ∷ ts) ]
start_next (stored ∷ ss) = elim (start_next ss) [ none ↦ none | some ts ↦ some (stored ∷ ts) ]
start_next (failed ∷ ss) = elim (start_next ss) [ none ↦ none | some ts ↦ some (failed ∷ ts) ]

-- The k-th function returns from `fetch`, and its slot becomes `r`: the slots, and the id.
abbrev pub return_at : ℕ → Slot → List ℕ → List Slot → Option (List Slot × ℕ)
return_at k r [] ss = none
return_at k r (id ∷ ids) [] = none
return_at zero r (id ∷ ids) (active ∷ ss) = some (r ∷ ss, id)
return_at zero r (id ∷ ids) (pending ∷ ss) = none
return_at zero r (id ∷ ids) (stored ∷ ss) = none
return_at zero r (id ∷ ids) (failed ∷ ss) = none
return_at (suc k) r (id ∷ ids) (s ∷ ss) = elim (return_at k r ids ss) [
  | none ↦ none
  | some x ↦ some (s ∷ x.0, x.1)
]

pub data Event : Type 0 where
  started parent_ends : Event
  timer_fires context_seen : ℕ → Event

abbrev pub stored_at : Fetches → Option (List Slot × ℕ) → Option Fetches
stored_at f none = none
stored_at f (some (ss, id)) = some (record f { slots = ss })

abbrev pub failed_at : Fetches → Option (List Slot × ℕ) → Option Fetches
failed_at f none = none
failed_at f (some (ss, id)) =
    some (record f { slots = ss; errors = f.errors ++ record { of_id = id } ∷ [] })

abbrev pub started_at : Fetches → Option (List Slot) → Option Fetches
started_at f none = none
started_at f (some ss) = some (record f { slots = ss })

abbrev pub all_returned : List Slot → Bool
all_returned [] = true
all_returned (stored ∷ ss) = all_returned ss
all_returned (failed ∷ ss) = all_returned ss
all_returned (pending ∷ ss) = false
all_returned (active ∷ ss) = false

abbrev pub result_of : ℕ → Slot → FetchResult
result_of id stored = fetch_result id
result_of id _ = zero_result

-- The slice of the results.
abbrev pub result_slice : List ℕ → List Slot → List FetchResult
result_slice [] ss = []
result_slice (id ∷ ids) [] = []
result_slice (id ∷ ids) (s ∷ ss) = result_of id s ∷ result_slice ids ss

module _ (g : Group) where
  unfoldable pub step : Event → Fetches → Option Fetches
  step started f =
      if g.admits (active_count f.slots) then started_at f (start_next f.slots) else none
  step parent_ends f = some (record f { parent_done = true })
  step (timer_fires k) f = stored_at f (return_at k stored f.ids f.slots)
  step (context_seen k) f =
      if is_done f then failed_at f (return_at k failed f.ids f.slots) else none

  unfoldable pub run : List Event → Fetches → Option Fetches
  unfolding step
  run [] f = some f
  run (e ∷ es) f = elim (step e f) [ none ↦ none | some h ↦ run es h ]

  -- What the two functions return once Wait does.
  abbrev pub or_nil :
      Option FetchError → List FetchResult → Option (List FetchResult) × Option FetchError
  or_nil none rs = (some rs, none)
  or_nil (some e) rs = (none, some e)

  unfoldable pub fetch_all : Fetches → Option (List FetchResult) × Option FetchError
  unfolding fetch_result
  fetch_all f = or_nil (g.wait f.errors) (result_slice f.ids f.slots)

  unfoldable pub fetch_with_limit : Fetches → List FetchResult × Option FetchError
  unfolding fetch_result
  fetch_with_limit f = (result_slice f.ids f.slots, g.wait f.errors)
