-- ===== src/Tracing.antt =====
-- examples/otel-propagation/main.go. OpenTelemetry and net/http are not part of the repository: the
-- interface Telemetry has the span that Start makes and the codec of the propagator. Inventory is
-- reached through a function from the request's headers, as in `http.DefaultClient.Do`.
pub mod Propagation
pub mod Checkout
pub mod Checkouts
mod Tests
use Prim.Native.String.{String}
use text.Mathlib.Text.{◌==◌ as str_eq}
use go_examples.Base.{
  ℕ, zero, suc, ◌+◌, ◌≡◌, Bool, true, false, List, [], ◌∷◌, ◌++◌, Option, none, some, Result, ok,
  err, Error, leaf, wrap, ◌==◌, if◌then◌else◌, length,
}

-- trace.SpanContext
pub record SpanContext : Type 0 where
  pub trace_id : ℕ
  pub span_id : ℕ

-- A span that the exporter got: its name, its context, and the context of its parent.
pub record Span : Type 0 where
  pub name : String
  pub context : SpanContext
  pub parent : Option SpanContext
  pub remote : Bool

-- A context.Context, as far as tracing goes: the span it carries, and whether that is remote.
abbrev pub Context : Type 0
Context = Option (SpanContext × Bool)

abbrev pub parent_of : Context → Option SpanContext
parent_of none = none
parent_of (some (c, remote)) = some c

abbrev pub is_remote : Context → Bool
is_remote none = false
is_remote (some (c, remote)) = remote

-- `start` is tracer.Start, which also takes the number of spans started before, and `Headers` are those of
-- a request. A span is in the trace of the span that the context carries, if it carries one.
pub record Telemetry : Type 1 where
  pub start : String → Context → ℕ → Span
  pub parent-start : (name : String) (c : Context) (k : ℕ) → (start name c k).parent ≡ parent_of c
  pub remote-start : (name : String) (c : Context) (k : ℕ) → (start name c k).remote ≡ is_remote c
  pub trace_id-start :
      (name : String) (p : SpanContext) (remote : Bool) (k : ℕ)
      → (start name (some (p, remote)) k).context.trace_id ≡ p.trace_id
  pub Headers : Type 0
  pub no_headers : Headers
  pub inject : SpanContext → Headers → Headers
  pub extract : Headers → Option SpanContext
  pub extract-inject : (c : SpanContext) (h : Headers) → extract (inject c h) ≡ some c
  pub extract-no_headers : extract no_headers ≡ none

-- The exporter's spans, the last one that ended first, and the number of spans started.
pub record World : Type 0 where
  pub exported : List Span
  pub started : ℕ

-- `span.End`
abbrev pub end_span : Span → World → World
end_span s w = record w { exported = s ∷ w.exported }

pub record Response : Type 0 where
  pub status : ℕ
  pub body : String

pub data Leaf : Type 0 where
  exported_spans : ℕ → Leaf
  propagation_failed listen_failed request_failed network read_failed : Leaf

pub data Step : Type 0 where
  listening building_request calling_checkout reading_response : Step

abbrev pub TracingError : Type 0
TracingError = Error Step Leaf

-- `traceIDs[...] = true` for each span
abbrev pub add_id : ℕ → List ℕ → List ℕ
add_id i [] = i ∷ []
add_id i (j ∷ js) = if i == j then j ∷ js else j ∷ add_id i js

abbrev pub trace_ids : List Span → List ℕ
trace_ids [] = []
trace_ids (s ∷ ss) = add_id s.context.trace_id (trace_ids ss)

unfoldable pub print_span_summary : List Span → Result TracingError (Unit {0})
print_span_summary spans =
    if length spans == 2
    then (if length (trace_ids spans) == 1 then ok tt else err (leaf propagation_failed))
    else err (leaf (exported_spans (length spans)))

module _ (t : Telemetry) where
  open t use {start, Headers, no_headers, inject, extract}

  -- `tracer.Start`
  abbrev pub start_span : String → Context → World → World × Span
  start_span name c w = (record w { started = w.started + 1 }, start name c w.started)

  abbrev pub remote_context : Option SpanContext → Context
  remote_context none = none
  remote_context (some c) = some (c, true)

  -- `handleInventory`, with the headers of its request.
  unfoldable pub handle_inventory : Headers → World → World × Response
  handle_inventory headers w =
      let (w', span) = start_span "reserve-inventory" (remote_context (extract headers)) w in
      (end_span span w', record { status = 200; body = "reserved" })

  -- What answers the request of checkout, or `none` for a network error.
  abbrev pub Service : Type 0
  Service = Headers → World → World × Option Response

  abbrev pub answered : World × Option Response → World × Response
  answered (w, none) = (w, record { status = 502; body = "bad gateway" })
  answered (w, some r) = (w, record { status = 200; body = r.body })

  -- `checkoutHandler`; `bad_url` fails to build the request. The deferred End comes last.
  unfoldable pub checkout_handler : Bool → Service → World → World × Response
  checkout_handler bad_url inventory w =
      let (w1, span) = start_span "checkout" none w in
      let (w2, r) : World × Response =
        if bad_url
        then (w1, record { status = 500; body = "bad url" })
        else answered (inventory (inject span.context no_headers) w1) in
      (end_span span w2, r)

  abbrev pub served : Service
  served headers w = let (w', r) = handle_inventory headers w in (w', some r)

  -- What can fail in `run` besides: starting each server, building the request, calling checkout and
  -- reading its response.
  pub record Faults : Type 0 where
    pub inventory_listens : Bool
    pub checkout_listens : Bool
    pub request_builds : Bool
    pub client_connects : Bool
    pub body_reads : Bool
    pub bad_url : Bool
    pub inventory_reached : Bool

  abbrev pub reach : Bool → Service
  reach true = served
  reach false = λ headers w. (w, none)

  unfoldable pub run : Faults → Result TracingError (Unit {0})
  unfolding checkout_handler print_span_summary
  run f =
      let (w, r) =
        checkout_handler f.bad_url (reach f.inventory_reached)
          (record { exported = []; started = 0 }) in
      if f.inventory_listens
      then if f.checkout_listens
        then if f.request_builds
          then if f.client_connects
            then if f.body_reads
              then print_span_summary w.exported
              else err (wrap reading_response (leaf read_failed))
            else err (wrap calling_checkout (leaf network))
          else err (wrap building_request (leaf request_failed))
        else err (wrap listening (leaf listen_failed))
      else err (wrap listening (leaf listen_failed))
