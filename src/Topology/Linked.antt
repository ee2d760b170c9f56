-- ===== src/Topology/Linked.antt =====
-- runtime/go/internal/topology/engine.go: lemmas on the first two loops of `Ingest` and the invariant
-- of the engine.
use node_flow.Prelude.{
  ℕ, zero, suc, ◌+◌, ◌≡◌, refl, inl, inr, true, false, ◌||◌, Option, none, some, List, [], ◌∷◌,
  length, bytes_eq, has, find, assign, assign-AreNamed, find-Entries, assign-Entries, keys,
  Bool-cases, Option-cases, null, arith,
}
use node_flow.Bytes.{Bytes}
use node_flow.Topology.{Host, Span, Node, Edge, Trace, Engine, tick}
use node_flow.Topology.Identity.{stable_edge_id}
use node_flow.Topology.Metrics.{record_metric, no_metric-IsMetric, record_metric-IsMetric}
use node_flow.Topology.Ingest.{
  resolve_or_create, resolve_node, admit_span, admit_spans, is_error, nearest_parent_node, found_by,
  edge_span_key, count_edge, link_nodes, link_span, link_trace, link_touched, add_new,
}
use node_flow.Topology.Sound.{
  Limits, IsEdge, IsTrace, IsEngine, resolve_or_create-IsNode, resolve_node-known,
  count_node-IsEngine, join_trace-IsTrace,
}

module _ (h : Host) (limits : Limits) where
  pub admit_span-IsEngine :
      (span : Span h) (e : Engine h) → IsEngine h limits e → IsEngine h limits (admit_span h span e)
  unfolding admit_span resolve_or_create
  admit_span-IsEngine span e fine = elim (Bool-cases (has span.span_id e.seen_span_ids)) [
    | inl seen ↦ rw (admit_span, seen) fine
    | inr new ↦
        rw (admit_span, new)
          (count_node-IsEngine h limits span (resolve_or_create h e span) _
            (record {
              trace_limit = fine.trace_limit;
              sample_limit = fine.sample_limit;
              path_limit = fine.path_limit;
              one_trace_each = assign-AreNamed span.trace_id _ e.traces fine.one_trace_each;
              traces =
                  assign-Entries (IsTrace h limits) span.trace_id _ e.traces
                    (join_trace-IsTrace h limits (tick e.clock) span e fine) fine.traces;
              nodes = fine.nodes;
              edges = fine.edges;
              paths = fine.paths;
              paths_le = fine.paths_le;
            })
            (λ n same. resolve_or_create-IsNode h limits e span n fine same))
  ]

  pub admit_spans-IsEngine :
      (spans : List (Span h)) (e : Engine h)
      → IsEngine h limits e
      → IsEngine h limits (admit_spans h spans e)
  unfolding admit_spans
  admit_spans-IsEngine [] e fine = fine
  admit_spans-IsEngine (span ∷ spans) e fine =
      admit_spans-IsEngine spans (admit_span h span e) (admit_span-IsEngine span e fine)

  -- The edge behind an identifier, known or new, before the call is counted.
  count_edge-IsEngine :
      (child : Span h) (parent_node child_node : Node h) (e : Engine h)
      → IsEngine h limits e
      → bytes_eq parent_node.id child_node.id ≡ false
      → has parent_node.id (keys e.nodes) ≡ true
      → has child_node.id (keys e.nodes) ≡ true
      → IsEngine h limits (count_edge h child parent_node child_node e)
  unfolding count_edge
  count_edge-IsEngine child parent_node child_node e fine apart above below =
      let id = stable_edge_id parent_node.id child_node.id in
      let counted : (edge : Edge h)
          → IsEdge h limits (keys e.nodes) id edge
          → IsEngine h limits (record e {
            edges =
                assign id
                  (record edge {
                    metrics =
                        record_metric h e.max_latency_samples edge.metrics child.duration
                          (is_error h child);
                  })
                  e.edges;
            seen_edge_span_ids = edge_span_key child.trace_id child.span_id ∷ e.seen_edge_span_ids;
            active_edges = add_new id e.active_edges;
          }) =
        λ edge sound. record {
          trace_limit = fine.trace_limit;
          sample_limit = fine.sample_limit;
          path_limit = fine.path_limit;
          one_trace_each = fine.one_trace_each;
          traces = fine.traces;
          nodes = fine.nodes;
          edges =
              assign-Entries (IsEdge h limits (keys e.nodes)) id _ e.edges
                (record {
                  named = sound.named;
                  ends = sound.ends;
                  apart = sound.apart;
                  source_known = sound.source_known;
                  target_known = sound.target_known;
                  metrics = rw fine.sample_limit (
                      record_metric-IsMetric h limits.samples edge.metrics child.duration
                        (is_error h child) (sound.metrics));
                })
                fine.edges;
          paths = fine.paths;
          paths_le = fine.paths_le;
        } in
      elim (Option-cases (find id e.edges)) [
        | inl missing ↦ rw missing (
            counted _ (record {
              named = refl;
              ends = refl;
              apart = apart;
              source_known = above;
              target_known = below;
              metrics = no_metric-IsMetric h limits.samples;
            }))
        | inr (edge, found) ↦ rw found (
            counted edge
              (find-Entries (IsEdge h limits (keys e.nodes)) id edge e.edges fine.edges found))
      ]

  link_nodes-IsEngine :
      (child : Span h) (above below : Option (Node h)) (e : Engine h)
      → IsEngine h limits e
      → ((n : Node h) → above ≡ some n → has n.id (keys e.nodes) ≡ true)
      → ((n : Node h) → below ≡ some n → has n.id (keys e.nodes) ≡ true)
      → IsEngine h limits (link_nodes h child above below e)
  unfolding link_nodes
  link_nodes-IsEngine child none below e fine p q = fine
  link_nodes-IsEngine child (some a) none e fine p q = fine
  link_nodes-IsEngine child (some a) (some b) e fine p q = elim (Bool-cases (bytes_eq a.id b.id)) [
    | inl same ↦ rw same fine
    | inr apart ↦ rw apart (count_edge-IsEngine child a b e fine apart (p a refl) (q b refl))
  ]

  nearest_parent_node-known :
      (fuel : ℕ) (e : Engine h) (trace : Trace h) (visited : List Bytes) (id : Bytes) (n : Node h)
      → IsEngine h limits e
      → found_by (nearest_parent_node h fuel e trace visited id) ≡ some n
      → has n.id (keys e.nodes) ≡ true
  unfolding nearest_parent_node
  nearest_parent_node-known zero e trace visited id n fine same = absurd (ground arith)
  nearest_parent_node-known (suc fuel) e trace visited id n fine same =
      elim (Option-cases (find id trace.spans)) [
        | inl missing ↦ absurd (ground (arith, rw (nearest_parent_node, missing) at same))
        | inr (current, found) ↦ elim (Bool-cases (has current.span_id visited)) [
          | inl seen ↦ absurd (ground (arith, rw (nearest_parent_node, found, seen) at same))
          | inr new ↦ elim (Option-cases (resolve_node h e current)) [
            | inr (node, resolved) ↦
                resolve_node-known h limits e current n fine
                  (rw resolved (rw (nearest_parent_node, found, new, resolved) at same))
            | inl passed ↦ elim (Bool-cases (null current.parent_span_id)) [
              | inl top ↦
                  absurd (ground (arith, rw (nearest_parent_node, found, new, passed, top) at same))
              | inr more ↦
                  nearest_parent_node-known fuel e trace (current.span_id ∷ visited)
                    current.parent_span_id n fine
                    (rw (nearest_parent_node, found, new, passed, more) at same)
            ]
          ]
        ]
      ]

  link_span-IsEngine :
      (trace : Trace h) (child : Span h) (e : Engine h)
      → IsEngine h limits e
      → IsEngine h limits (link_span h trace child e)
  unfolding link_span
  link_span-IsEngine trace child e fine =
      elim (Bool-cases (
        null child.parent_span_id
        || has (edge_span_key child.trace_id child.span_id) e.seen_edge_span_ids)) [
          | inl skipped ↦ rw skipped fine
          | inr kept ↦ rw kept (
              link_nodes-IsEngine child _ _ e fine
                (λ n same.
                  nearest_parent_node-known (length trace.spans + 1) e trace [] child.parent_span_id
                    n fine same)
                (λ n same. resolve_node-known h limits e child n fine same))
        ]

  link_trace-IsEngine :
      (trace : Trace h) (ids : List Bytes) (e : Engine h)
      → IsEngine h limits e
      → IsEngine h limits (link_trace h trace ids e)
  unfolding link_trace
  link_trace-IsEngine trace [] e fine = fine
  link_trace-IsEngine trace (id ∷ ids) e fine = elim (Option-cases (find id trace.spans)) [
    | inl missing ↦ rw (link_trace, missing) (link_trace-IsEngine trace ids e fine)
    | inr (child, found) ↦
        rw (link_trace, found)
          (link_trace-IsEngine trace ids (link_span h trace child e)
            (link_span-IsEngine trace child e fine))
  ]

  pub link_touched-IsEngine :
      (ids : List Bytes) (e : Engine h)
      → IsEngine h limits e
      → IsEngine h limits (link_touched h ids e)
  unfolding link_touched
  link_touched-IsEngine [] e fine = fine
  link_touched-IsEngine (id ∷ ids) e fine = elim (Option-cases (find id e.traces)) [
    | inl missing ↦ rw (link_touched, missing) (link_touched-IsEngine ids e fine)
    | inr (trace, found) ↦
        rw (link_touched, found)
          (link_touched-IsEngine ids (link_trace h trace trace.span_order e)
            (link_trace-IsEngine trace trace.span_order e fine))
  ]
