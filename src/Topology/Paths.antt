-- ===== src/Topology/Paths.antt =====
-- runtime/go/internal/topology/engine.go: `buildTrace` and `collectNodePaths`.
use node_flow.Prelude.{
  ℕ, zero, suc, ◌+◌, ◌*◌, Bool, true, false, ◌||◌, Option, none, some, List, [], ◌∷◌, ◌++◌, length,
  null, bytes_eq, has, find, if◌then◌else◌,
}
use node_flow.Bytes.{Bytes}
use node_flow.Topology.{Host, Span, Trace}
use node_flow.Topology.Ingest.{
  Walk, out_of_fuel, ended, found_by, http_route, controller, service, worker, custom,
  topology_kinds, node_id, is_error,
}

-- "traceKinds".
abbrev pub trace_kinds : List Bytes
trace_kinds = custom ∷ topology_kinds

abbrev pub entry_kinds : List Bytes
entry_kinds = http_route ∷ worker ∷ controller ∷ service ∷ []

-- `traceSpan`, with the list of its children.
mutual
  pub data TraceSpan (h : Host) : Type 0 where
    trace_span : Span h → Bytes → TraceSpans h → TraceSpan h

  pub data TraceSpans (h : Host) : Type 0 where
    nil : TraceSpans h
    cons : TraceSpan h → TraceSpans h → TraceSpans h

pub record BuiltTrace (h : Host) : Type 0 where
  pub roots : List (TraceSpan h)
  pub started_at : h.F
  pub duration : h.F
  pub failed : Bool

-- The last node of a path.
abbrev pub is_last : Bytes → List Bytes → Bool
is_last id [] = false
is_last id (n ∷ []) = bytes_eq n id
is_last id (n ∷ m ∷ ns) = is_last id (m ∷ ns)

module _ (h : Host) where
  abbrev pub half : h.F
  half = h.div_f (h.of_nat 1) (h.of_nat 2)

  -- `round`, to two places.
  unfoldable pub round : h.F → h.F
  round v = h.div_f (h.floor_f (h.add_f (h.mul_f v (h.of_nat 100)) half)) (h.of_nat 100)

  -- The spans of a trace that `traceSpans` keeps, in their order.
  unfoldable pub kept_spans : Trace h → List Bytes → List (Span h)
  kept_spans trace [] = []
  kept_spans trace (id ∷ ids) =
      let rest = kept_spans trace ids in
      elim (find id trace.spans) [
        | none ↦ rest
        | some span ↦ if has span.kind trace_kinds then span ∷ rest else rest
      ]

  abbrev pub is_kept : Bytes → List (Span h) → Bool
  is_kept id [] = false
  is_kept id (s ∷ ss) = bytes_eq s.span_id id || is_kept id ss

  -- `findNearestTraceParent`: the identifier of the nearest kept span above, on fuel.
  unfoldable pub nearest_trace_parent :
      ℕ → Trace h → List (Span h) → List Bytes → Bytes → Walk Bytes
  nearest_trace_parent zero trace kept visited id = out_of_fuel
  nearest_trace_parent (suc fuel) trace kept visited id = elim (null id || has id visited) [
    | true ↦ ended none
    | false ↦ elim (is_kept id kept) [
      | true ↦ ended (some id)
      | false ↦ elim (find id trace.spans) [
        | none ↦ ended none
        | some parent ↦ nearest_trace_parent fuel trace kept (id ∷ visited) parent.parent_span_id
      ]
    ]
  ]

  abbrev pub parent_of : Trace h → List (Span h) → Span h → Option Bytes
  parent_of trace kept span =
      found_by (nearest_trace_parent (length trace.spans + 1) trace kept [] span.parent_span_id)

  abbrev pub is_under : Option Bytes → Option Bytes → Bool
  is_under none none = true
  is_under none (some b) = false
  is_under (some a) none = false
  is_under (some a) (some b) = bytes_eq a b

  -- The kept spans below a span, or at the top.
  unfoldable pub spans_below :
      Trace h → List (Span h) → Option Bytes → List (Span h) → List (Span h)
  spans_below trace kept above [] = []
  spans_below trace kept above (s ∷ ss) =
      let rest = spans_below trace kept above ss in
      if is_under above (parent_of trace kept s) then s ∷ rest else rest

  -- The stable sort by start time.
  unfoldable pub insert_by_start : Span h → List (Span h) → List (Span h)
  insert_by_start s [] = s ∷ []
  insert_by_start s (t ∷ ts) =
      let later = insert_by_start s ts in
      if h.lt_f t.start_time s.start_time then t ∷ later else s ∷ t ∷ ts

  unfoldable pub by_start : List (Span h) → List (Span h)
  by_start [] = []
  by_start (s ∷ ss) = insert_by_start s (by_start ss)

  unfoldable pub item_node : Span h → Bytes
  item_node span = if has span.kind topology_kinds then node_id h span else []

  -- The trees below the spans of a list, on fuel.
  unfoldable pub grow : ℕ → Trace h → List (Span h) → List (Span h) → TraceSpans h
  grow zero trace kept ss = nil
  grow (suc fuel) trace kept [] = nil
  grow (suc fuel) trace kept (s ∷ ss) =
      cons
        (trace_span s (item_node s)
          (grow fuel trace kept (by_start (spans_below trace kept (some s.span_id) kept))))
        (grow fuel trace kept ss)

  abbrev pub to_list : TraceSpans h → List (TraceSpan h)
  to_list nil = []
  to_list (cons t ts) = t ∷ to_list ts

  -- Go's zero value, behind a key that is missing.
  abbrev pub span_or_zero : Option (Span h) → Span h
  span_or_zero (some span) = span
  span_or_zero none = record {
    trace_id = [];
    span_id = [];
    parent_span_id = [];
    name = [];
    kind = [];
    start_time = h.zero_f;
    duration = h.zero_f;
    status = [];
    attributes = [];
  }

  -- The loop over all spans of the trace: the earliest start, the latest end, and whether one failed.
  unfoldable pub window : Trace h → List Bytes → Bool → h.F → h.F → Bool → h.F × h.F × Bool
  window trace [] first earliest latest failed = (earliest, latest, failed)
  window trace (id ∷ ids) first earliest latest failed =
      let span = span_or_zero (find id trace.spans) in
      let end = h.add_f span.start_time span.duration in
      window trace ids false
        (if first || h.lt_f span.start_time earliest then span.start_time else earliest)
        (if first || h.lt_f latest end then end else latest) (failed || is_error h span)

  unfoldable pub build_trace : Trace h → BuiltTrace h
  build_trace trace =
      let kept = kept_spans trace trace.span_order in
      let w = window trace trace.span_order true h.zero_f h.zero_f false in
      record {
        roots =
            to_list
              (grow (length kept * 2 + 1) trace kept (by_start (spans_below trace kept none kept)));
        started_at = w.0;
        duration = round (h.sub_f w.1 w.0);
        failed = w.2;
      }

  -- `collectNodePaths`.
  unfoldable mutual
    pub collect_paths : TraceSpan h → List Bytes → List (List Bytes)
    collect_paths (trace_span s id children) above =
        collect_children children
          (if null id || is_last id above then above else above ++ (id ∷ []))

    pub collect_children : TraceSpans h → List Bytes → List (List Bytes)
    collect_children nil nodes = nodes ∷ []
    collect_children (cons t ts) nodes = collect_paths t nodes ++ collect_more ts nodes

    pub collect_more : TraceSpans h → List Bytes → List (List Bytes)
    collect_more nil nodes = []
    collect_more (cons t ts) nodes = collect_paths t nodes ++ collect_more ts nodes
