-- ===== src/Tracing/Propagation.antt =====
-- One trace across both services.
use go_examples.Base.{
  ◌+◌, ◌≡◌, refl, Bool, true, false, ◌∷◌, none, some, ok, err, leaf, arith, if◌then◌else◌,
}
use go_examples.Tracing.{
  Span, Context, Telemetry, World, handle_inventory, checkout_handler, served, print_span_summary,
  run, exported_spans,
}

module _ (t : Telemetry) where
  open t use {Headers, no_headers, inject, extract}

  -- A checkout whose request can be built adds two spans: that of inventory, whose parent is the
  -- span of checkout, seen as a remote one, in the trace that checkout began; and that of checkout, without a parent. The
  -- client gets inventory's body.
  pub checkout_traced :
      (w : World)
      → let (w', r) = checkout_handler t false (served t) w in
        (child root : Span) × (w'.exported ≡ root ∷ child ∷ w.exported)
        × (child.parent ≡ some root.context)
        × (child.remote ≡ true)
        × (root.parent ≡ none)
        × (child.context.trace_id ≡ root.context.trace_id)
        × (r ≡ record { status = 200; body = "reserved" })
  unfolding checkout_handler handle_inventory
  checkout_traced w =
      let root = t.start "checkout" none w.started in
      let parent : Context = some (root.context, true) in
      (
        t.start "reserve-inventory" parent (w.started + 1),
        root,
        rw (t.extract-inject root.context no_headers),
        t.parent-start "reserve-inventory" parent (w.started + 1),
        t.remote-start "reserve-inventory" parent (w.started + 1),
        t.parent-start "checkout" none w.started,
        t.trace_id-start "reserve-inventory" root.context true (w.started + 1),
        refl,
      )

  -- Once both servers and the client work, `run` returns nil when checkout reaches inventory, and
  -- reports the one exported span when it does not.
  pub run_reports :
      (bad_url reached : Bool)
      → run t (record {
        inventory_listens = true;
        checkout_listens = true;
        request_builds = true;
        client_connects = true;
        body_reads = true;
        bad_url = bad_url;
        inventory_reached = reached;
      })
        ≡ (if bad_url
            then err (leaf (exported_spans 1))
            else if reached
            then ok tt
            else err (leaf (exported_spans 1)))
  unfolding run print_span_summary checkout_handler handle_inventory
  run_reports true reached = refl
  run_reports false false = refl
  run_reports false true =
      let root = t.start "checkout" none 0 in
      ground (
        arith,
        t.extract-inject root.context no_headers,
        t.trace_id-start "reserve-inventory" root.context true 1,
      )
