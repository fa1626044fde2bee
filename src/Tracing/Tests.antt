-- ===== src/Tracing/Tests.antt =====
-- A propagator whose headers are an optional span context.
use Prim.Native.String.{String}
use go_examples.Base.{ℕ, ◌≡◌, refl, true, false, [], ◌∷◌, Option, none, some, err, leaf}
use go_examples.Tracing.{
  SpanContext, Span, Telemetry, World, Context, parent_of, is_remote, checkout_handler, served,
  print_span_summary, propagation_failed,
}
use go_examples.Tracing.Propagation.{checkout_traced}
use go_examples.Tracing.Checkout
use go_examples.Tracing.Checkout.{
  Exports, EndedSpan, checkout, reserve_inventory, charge_card, new_exporter, stdout, otlp,
  shutdown_failed,
}
use go_examples.Tracing.Checkouts.{checkout-IsTrace, IsTrace, result_for}

abbrev span_of : String → Context → ℕ → Span
span_of name none k = record {
  name = name;
  context = record { trace_id = k; span_id = k };
  parent = none;
  remote = false;
}
span_of name (some (p, remote)) k = record {
  name = name;
  context = record { trace_id = p.trace_id; span_id = k };
  parent = some p;
  remote = remote;
}

parent_span : (name : String) (c : Context) (k : ℕ) → (span_of name c k).parent ≡ parent_of c
parent_span name none k = refl
parent_span name (some (p, remote)) k = refl

remote_span : (name : String) (c : Context) (k : ℕ) → (span_of name c k).remote ≡ is_remote c
remote_span name none k = refl
remote_span name (some (p, remote)) k = refl

abbrev wire : Telemetry
wire = record {
  start = span_of;
  parent-start = parent_span;
  remote-start = remote_span;
  trace_id-start = λ name p remote k. refl;
  Headers = Option SpanContext;
  no_headers = none;
  inject = λ c h. some c;
  extract = λ h. h;
  extract-inject = λ c h. refl;
  extract-no_headers = refl;
}

abbrev fresh : World
fresh = record { exported = []; started = 0 }

checkout_traced_instance :
    let (w, r) = checkout_handler wire false (served wire) fresh in
    (child root : Span) × (w.exported ≡ root ∷ child ∷ [])
    × (child.parent ≡ some root.context)
    × (child.remote ≡ true)
    × (root.parent ≡ none)
    × (child.context.trace_id ≡ root.context.trace_id)
    × (r ≡ record { status = 200; body = "reserved" })
checkout_traced_instance = checkout_traced wire fresh

abbrev root_span : ℕ → Span
root_span i = record {
  name = "s";
  context = record { trace_id = i; span_id = i };
  parent = none;
  remote = false;
}

unrelated : print_span_summary (root_span 1 ∷ root_span 3 ∷ []) ≡ err (leaf propagation_failed)
unfolding print_span_summary
unrelated = refl

abbrev no_exports : Exports
no_exports = record { ended = []; started = 4 }

checkout-IsTrace_example :
    let (x, r) = checkout wire none true no_exports in
    (root charge reserve : EndedSpan) × (x
      ≡ record { ended = root ∷ charge ∷ reserve ∷ []; started = 7 })
    × (r ≡ result_for true)
    × IsTrace wire none true root charge reserve
checkout-IsTrace_example = checkout-IsTrace wire none true no_exports

-- The declined second checkout is not an error of `run`.
failing_shutdown-run : (Checkout.run wire true false).1 ≡ leaf shutdown_failed ∷ []
unfolding Checkout.run checkout reserve_inventory charge_card
failing_shutdown-run = refl

exporter-destinations :
    (new_exporter "" ≡ stdout)
    × (new_exporter "http://localhost:4318" ≡ otlp "http://localhost:4318")
unfolding new_exporter
exporter-destinations = (refl, refl)
