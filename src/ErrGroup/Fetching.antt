-- ===== src/ErrGroup/Fetching.antt =====
-- What the fetches return, in every order of the goroutines.
use mathlib.Core.Path.{subst}
use go_examples.Base.{
  ℕ, ◌≤◌, ◌≡◌, refl, ap, ◌∙◌, ◌⊎◌, inl, inr, Bool, true, false, List, [], ◌∷◌, map, length, Option,
  none, some, if◌then◌else◌, arith, length-append,
}
use go_examples.ErrGroup.{
  FetchError, Group, fetch_result, Slot, stored, failed, Fetches, begin_fetches, active_count,
  has_error, is_done, start_next, return_at, Event, started, parent_ends, timer_fires, context_seen,
  stored_at, failed_at, started_at, all_returned, step, run, fetch_all,
}
use go_examples.ErrGroup.Slots.{
  failed_count, Started, Returned, start_next-Started, return_at-Returned, all_pending_counts,
  all_stored,
}

module _ (g : Group) (ids : List ℕ) where
  pub record IsFetching (f : Fetches) : Type 0 where
    pub same_ids : f.ids ≡ ids
    pub width : length f.slots ≡ length ids
    pub counted : failed_count f.slots ≡ length f.errors
    pub blamed : has_error f.errors ≡ true → f.parent_done ≡ true
    pub limited : (l : ℕ) → g.limit ≡ some l → active_count f.slots ≤ l

  abbrev Fetching : Option Fetches → Type 0
  Fetching none = Unit
  Fetching (some f) = IsFetching f

  started_at-Fetching :
      (f : Fetches) (o : Option (List Slot))
      → IsFetching f
      → g.admits (active_count f.slots) ≡ true
      → Started f.slots o
      → Fetching (started_at f o)
  started_at-Fetching f none h a r = tt
  started_at-Fetching f (some ss) h a (p, q, n) = record {
    same_ids = h.same_ids;
    width = n ∙ h.width;
    counted = q ∙ h.counted;
    blamed = h.blamed;
    limited = λ l e. omega (arith, p, g.admits-limit (active_count f.slots) l e a);
  }

  stored_at-Fetching :
      (f : Fetches) (o : Option (List Slot × ℕ))
      → IsFetching f
      → Returned stored f.slots o
      → Fetching (stored_at f o)
  stored_at-Fetching f none h r = tt
  stored_at-Fetching f (some (ss, id)) h (p, q, n) = record {
    same_ids = h.same_ids;
    width = n ∙ h.width;
    counted = omega (arith, q, h.counted);
    blamed = h.blamed;
    limited = λ l e. omega (arith, p, h.limited l e);
  }

  -- A fetch fails only in a context that is done, and the first one to do so sees the parent's end.
  failed_at-Fetching :
      (f : Fetches) (o : Option (List Slot × ℕ))
      → IsFetching f
      → is_done f ≡ true
      → Returned failed f.slots o
      → Fetching (failed_at f o)
  failed_at-Fetching f none h d r = tt
  failed_at-Fetching f (some (ss, id)) h d (p, q, n) = record {
    same_ids = h.same_ids;
    width = n ∙ h.width;
    counted = omega (arith, q, h.counted, length-append f.errors (record { of_id = id } ∷ []));
    blamed = λ e. ground (arith, d, h.blamed);
    limited = λ l e. omega (arith, p, h.limited l e);
  }

  only_if :
      (b : Bool) (o : Option Fetches) → (b ≡ true → Fetching o) → Fetching (if b then o else none)
  only_if true o h = h refl
  only_if false o h = tt

  step-Fetching : (e : Event) (f : Fetches) → IsFetching f → Fetching (step g e f)
  unfolding step
  step-Fetching started f h =
      only_if (g.admits (active_count f.slots)) _
        (λ a. started_at-Fetching f (start_next f.slots) h a (start_next-Started f.slots))
  step-Fetching parent_ends f h = record {
    same_ids = h.same_ids;
    width = h.width;
    counted = h.counted;
    blamed = λ e. refl;
    limited = h.limited;
  }
  step-Fetching (timer_fires k) f h =
      stored_at-Fetching f (return_at k stored f.ids f.slots) h
        (return_at-Returned k stored f.ids f.slots refl)
  step-Fetching (context_seen k) f h = only_if (is_done f) _ (λ d.
      failed_at-Fetching f (return_at k failed f.ids f.slots) h d
        (return_at-Returned k failed f.ids f.slots refl))

  onward :
      (o : Option Fetches) (es : List Event)
      → Fetching o
      → ((f : Fetches) → IsFetching f → Fetching (run g es f))
      → Fetching (elim o [ none ↦ none | some f ↦ run g es f ])
  onward none es h k = tt
  onward (some f) es h k = k f h

  run-Fetching : (es : List Event) (f : Fetches) → IsFetching f → Fetching (run g es f)
  unfolding run
  run-Fetching [] f h = h
  run-Fetching (e ∷ es) f h = onward (step g e f) es (step-Fetching e f h) (run-Fetching es)

begin_fetches-IsFetching : (g : Group) (ids : List ℕ) → IsFetching g ids (begin_fetches ids)
begin_fetches-IsFetching g ids =
    let (n, c, a) = all_pending_counts ids in
    record {
      same_ids = refl;
      width = n;
      counted = c;
      blamed = λ e. ground (arith, e);
      limited = λ l e. omega (arith, a);
    }

gathered :
    (g : Group) (ids : List ℕ) (f : Fetches) (errors : List FetchError)
    → IsFetching g ids f
    → all_returned f.slots ≡ true
    → f.errors ≡ errors
    → (fetch_all g f ≡ (some (map fetch_result ids), none))
      ⊎ ((e : FetchError) × (rest : List FetchError) × (f.errors ≡ e ∷ rest)
          × (fetch_all g f ≡ (none, some e))
          × (f.parent_done ≡ true))
unfolding fetch_all
gathered g ids f [] h r e =
    let n : failed_count f.slots ≡ 0 = h.counted ∙ ap length e in
    let s = all_stored ids f.slots h.width n r in inl (ground (arith, s, e, h.same_ids, g.wait-nil))
gathered g ids f (x ∷ es) h r e =
    inr (x, es, e, ground (arith, e, g.wait-cons x es), h.blamed (ground (arith, e)))

-- However the goroutines interleave, once every function has returned, fetchAll returns the result of each id in
-- the order of the ids, or no results and the first error; the latter only when the caller's context has
-- ended.
pub fetch_all_lem :
    (g : Group) (ids : List ℕ) (es : List Event) (f : Fetches)
    → run g es (begin_fetches ids) ≡ some f
    → all_returned f.slots ≡ true
    → (fetch_all g f ≡ (some (map fetch_result ids), none))
      ⊎ ((e : FetchError) × (rest : List FetchError) × (f.errors ≡ e ∷ rest)
          × (fetch_all g f ≡ (none, some e))
          × (f.parent_done ≡ true))
fetch_all_lem g ids es f h r =
    let k : IsFetching g ids f =
      subst (Fetching g ids) h
        (run-Fetching g ids es (begin_fetches ids) (begin_fetches-IsFetching g ids)) in
    gathered g ids f f.errors k r refl

-- In every interleaving, at no time are more fetches active than the limit that the group was given.
pub active_count_bounded :
    (g : Group) (ids : List ℕ) (es : List Event) (f : Fetches) (l : ℕ)
    → run g es (begin_fetches ids) ≡ some f
    → g.limit ≡ some l
    → active_count f.slots ≤ l
active_count_bounded g ids es f l h e =
    let k : IsFetching g ids f =
      subst (Fetching g ids) h
        (run-Fetching g ids es (begin_fetches ids) (begin_fetches-IsFetching g ids)) in
    k.limited l e
