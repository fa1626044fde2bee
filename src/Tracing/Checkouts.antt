-- ===== src/Tracing/Checkouts.antt =====
-- The trace of a checkout.
use go_examples.Base.{
  ℕ, ◌+◌, ◌≡◌, refl, Bool, true, false, List, [], ◌∷◌, some, ok, err, leaf, wrap, Result,
}
use go_examples.Tracing.{Context, Telemetry, parent_of}
use go_examples.Tracing.Checkout.{
  Status, ok_status, error_status, unset, EndedSpan, Exports, CheckoutError, card_declined,
  charging_card, reserve_inventory, charge_card, checkout, CheckoutLeaf,
}

-- The outcome that a checkout is to have: its error, and the status and the errors of the two spans that have one.
abbrev pub result_for : Bool → Result CheckoutError (Unit {0})
result_for true = err (wrap charging_card (leaf card_declined))
result_for false = ok tt

abbrev pub root_status : Bool → Status
root_status true = error_status "payment failed"
root_status false = ok_status

abbrev pub charge_status : Bool → Status
charge_status true = error_status "card declined"
charge_status false = ok_status

abbrev pub charge_errors : Bool → List CheckoutLeaf
charge_errors true = card_declined ∷ []
charge_errors false = []

module _ (t : Telemetry) where
  -- The three spans of a checkout, each ended once, the root last.
  pub record IsTrace (c : Context) (decline : Bool) (root charge reserve : EndedSpan) : Type 0 where
    pub above : root.span.parent ≡ parent_of c
    pub charge_parent : charge.span.parent ≡ some root.span.context
    pub reserve_parent : reserve.span.parent ≡ some root.span.context
    pub charge_trace : charge.span.context.trace_id ≡ root.span.context.trace_id
    pub reserve_trace : reserve.span.context.trace_id ≡ root.span.context.trace_id
    pub root_outcome : root.status ≡ root_status decline
    pub charge_outcome : charge.status ≡ charge_status decline
    pub charge_recorded : charge.errors ≡ charge_errors decline
    pub reserve_outcome : reserve.status ≡ unset

  abbrev root_of : Context → Bool → ℕ → EndedSpan
  root_of c decline k = record {
    span = t.start "checkout" c k;
    status = root_status decline;
    events = "order received" ∷ [];
    errors = [];
  }

  abbrev inner : Context → ℕ → Context
  inner c k = some ((t.start "checkout" c k).context, false)

  abbrev charge_of : Context → Bool → ℕ → EndedSpan
  charge_of c decline k = record {
    span = t.start "charge-card" (inner c k) (k + 1 + 1);
    status = charge_status decline;
    events = [];
    errors = charge_errors decline;
  }

  abbrev reserve_of : Context → ℕ → EndedSpan
  reserve_of c k = record {
    span = t.start "reserve-inventory" (inner c k) (k + 1);
    status = unset;
    events = "reservation confirmed" ∷ [];
    errors = [];
  }

  spans-IsTrace :
      (c : Context) (decline : Bool) (k : ℕ)
      → IsTrace c decline (root_of c decline k) (charge_of c decline k) (reserve_of c k)
  spans-IsTrace c decline k =
      let root = t.start "checkout" c k in
      record {
        above = t.parent-start "checkout" c k;
        charge_parent = t.parent-start "charge-card" (inner c k) (k + 1 + 1);
        reserve_parent = t.parent-start "reserve-inventory" (inner c k) (k + 1);
        charge_trace = t.trace_id-start "charge-card" root.context false (k + 1 + 1);
        reserve_trace = t.trace_id-start "reserve-inventory" root.context false (k + 1);
        root_outcome = refl;
        charge_outcome = refl;
        charge_recorded = refl;
        reserve_outcome = refl;
      }

  -- A checkout exports three spans, the children before the root: those of the reservation and of the charge are
  -- children of the root in its trace. A declined card fails the checkout with its error, marks the root
  -- and the charge as failed and is recorded on the charge; otherwise both are marked as successful.
  pub checkout-IsTrace :
      (c : Context) (decline : Bool) (x : Exports)
      → let (x', r) = checkout t c decline x in
        (root charge reserve : EndedSpan) × (x'
          ≡ record { ended = root ∷ charge ∷ reserve ∷ x.ended; started = x.started + 1 + 1 + 1 })
        × (r ≡ result_for decline)
        × IsTrace c decline root charge reserve
  unfolding checkout reserve_inventory charge_card
  checkout-IsTrace c true x = (
    root_of c true x.started,
    charge_of c true x.started,
    reserve_of c x.started,
    refl,
    refl,
    spans-IsTrace c true x.started,
  )
  checkout-IsTrace c false x = (
    root_of c false x.started,
    charge_of c false x.started,
    reserve_of c x.started,
    refl,
    refl,
    spans-IsTrace c false x.started,
  )
