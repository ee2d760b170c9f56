-- ===== src/Topology/Trim.antt =====
-- runtime/go/internal/topology/engine.go: `trimTraces`.
use node_flow.Prelude.{◌-◌, List, [], ◌∷◌, length, take, without, remove, leb, if◌then◌else◌}
use node_flow.Bytes.{Bytes}
use node_flow.Topology.{Host, Trace, Engine}
use node_flow.Topology.Ingest.{edge_span_key}

module _ (h : Host) where
  -- `ordered`: the traces by their last update, the oldest first.
  unfoldable pub insert_by_age : Trace h → List (Trace h) → List (Trace h)
  insert_by_age trace [] = trace ∷ []
  insert_by_age trace (t ∷ ts) =
      let later = insert_by_age trace ts in
      if leb trace.last_updated_at t.last_updated_at then trace ∷ t ∷ ts else t ∷ later

  unfoldable pub by_age : List (Bytes × Trace h) → List (Trace h)
  by_age [] = []
  by_age ((id, trace) ∷ traces) = insert_by_age trace (by_age traces)

  unfoldable pub forget_spans : Bytes → List Bytes → Engine h → Engine h
  forget_spans trace_id [] e = e
  forget_spans trace_id (id ∷ ids) e = forget_spans trace_id ids (record e {
    seen_span_ids = without id e.seen_span_ids;
    seen_edge_span_ids = without (edge_span_key trace_id id) e.seen_edge_span_ids;
  })

  unfoldable pub forget_traces : List (Trace h) → Engine h → Engine h
  forget_traces [] e = e
  forget_traces (trace ∷ traces) e = forget_traces traces (
      forget_spans trace.trace_id trace.span_order
        (record e { traces = remove trace.trace_id e.traces }))

  unfoldable pub trim_traces : Engine h → Engine h
  trim_traces e = forget_traces (take (length e.traces - e.max_recent_traces) (by_age e.traces)) e
