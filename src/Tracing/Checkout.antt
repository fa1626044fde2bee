-- ===== src/Tracing/Checkout.antt =====
-- examples/otel/main.go, over the interface of the parent: a checkout and the spans it exports. A span is exported with
-- the status, the events and the errors that it was given before End.
use Prim.Native.String.{String}
use text.Mathlib.Text.{◌==◌ as str_eq}
use go_examples.Base.{
  ℕ, ◌+◌, Bool, true, false, List, [], ◌∷◌, ◌++◌, none, some, Result, ok, err, Error, leaf, wrap,
  if◌then◌else◌,
}
use go_examples.Tracing.{Span, Context, Telemetry}

pub data Status : Type 0 where
  unset ok_status : Status
  error_status : String → Status

pub data CheckoutLeaf : Type 0 where
  card_declined exporter_failed shutdown_failed : CheckoutLeaf

pub data CheckoutContext : Type 0 where
  creating_exporter reserving_inventory charging_card : CheckoutContext

abbrev pub CheckoutError : Type 0
CheckoutError = Error CheckoutContext CheckoutLeaf

pub record EndedSpan : Type 0 where
  pub span : Span
  pub status : Status
  pub events : List String
  pub errors : List CheckoutLeaf

-- The spans that have ended, the last one first, and the number of spans started.
pub record Exports : Type 0 where
  pub ended : List EndedSpan
  pub started : ℕ

-- `newExporter`: where the spans go, given the value of OTEL_EXPORTER_OTLP_ENDPOINT.
pub data Destination : Type 0 where
  otlp : String → Destination
  stdout : Destination

unfoldable pub new_exporter : String → Destination
new_exporter endpoint = if str_eq endpoint "" then stdout else otlp endpoint

module _ (t : Telemetry) where
  open t use {start}

  -- `tracer.Start`
  abbrev pub open_span : String → Context → Exports → Exports × EndedSpan
  open_span name c x = (
    record x { started = x.started + 1 },
    record { span = start name c x.started; status = unset; events = []; errors = [] },
  )

  abbrev pub close_span : EndedSpan → Exports → Exports
  close_span s x = record x { ended = s ∷ x.ended }

  abbrev pub add_event : String → EndedSpan → EndedSpan
  add_event e s = record s { events = s.events ++ e ∷ [] }

  -- The context that Start returns.
  abbrev pub context_of : EndedSpan → Context
  context_of s = some (s.span.context, false)

  unfoldable pub reserve_inventory : Context → Exports → Exports × Result CheckoutError (Unit {0})
  reserve_inventory c x =
      let (x1, span) = open_span "reserve-inventory" c x in
      (close_span (add_event "reservation confirmed" span) x1, ok tt)

  unfoldable pub charge_card : Context → Bool → Exports → Exports × Result CheckoutError (Unit {0})
  charge_card c decline x =
      let (x1, span) = open_span "charge-card" c x in
      if decline
      then (
        close_span
            (record span {
              errors = span.errors ++ card_declined ∷ [];
              status = error_status "card declined";
            })
            x1,
        err (leaf card_declined),
      )
      else (close_span (record span { status = ok_status }) x1, ok tt)

  abbrev pub charged :
      EndedSpan
      → Exports × Result CheckoutError (Unit {0})
      → Exports × Result CheckoutError (Unit {0})
  charged span (x, err e) = (
    close_span (record span { status = error_status "payment failed" }) x,
    err (wrap charging_card e),
  )
  charged span (x, ok u) = (close_span (record span { status = ok_status }) x, ok tt)

  abbrev pub reserved :
      EndedSpan
      → Bool
      → Exports × Result CheckoutError (Unit {0})
      → Exports × Result CheckoutError (Unit {0})
  reserved span decline (x, err e) = (
    close_span (record span { status = error_status "inventory reservation failed" }) x,
    err (wrap reserving_inventory e),
  )
  reserved span decline (x, ok u) = charged span (charge_card (context_of span) decline x)

  unfoldable pub checkout : Context → Bool → Exports → Exports × Result CheckoutError (Unit {0})
  unfolding reserve_inventory charge_card
  checkout c decline x =
      let (x1, span) = open_span "checkout" c x in
      let root = add_event "order received" span in
      reserved root decline (reserve_inventory (context_of root) x1)

  -- `run` returns nothing of the second checkout; the deferred Shutdown adds its error.
  abbrev pub both_checkouts :
      Exports × Result CheckoutError (Unit {0}) → Exports × Result CheckoutError (Unit {0})
  both_checkouts (x, err e) = (x, err e)
  both_checkouts (x, ok u) = ((checkout none true x).0, ok tt)

  abbrev pub joined_errors : Result CheckoutError (Unit {0}) → Bool → List CheckoutError
  joined_errors (ok u) true = []
  joined_errors (ok u) false = leaf shutdown_failed ∷ []
  joined_errors (err e) true = e ∷ []
  joined_errors (err e) false = e ∷ leaf shutdown_failed ∷ []

  abbrev pub shut_down :
      Bool → Exports × Result CheckoutError (Unit {0}) → Exports × List CheckoutError
  shut_down shuts (x, r) = (x, joined_errors r shuts)

  -- The errors joined_errors, and the exports, given whether the exporter is created and shuts down.
  unfoldable pub run : Bool → Bool → Exports × List CheckoutError
  unfolding checkout
  run creates shuts =
      let none_yet : Exports = record { ended = []; started = 0 } in
      if creates
      then shut_down shuts (both_checkouts (checkout none false none_yet))
      else (none_yet, wrap creating_exporter (leaf exporter_failed) ∷ [])
