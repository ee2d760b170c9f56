-- ===== src/Topology/State/Reached.antt =====
-- runtime/go/internal/topology/engine.go: lemmas on the first two loops of `Ingest` and what a
-- checkpoint can hold, continued.
use node_flow.Prelude.{
  ◌≡◌, refl, inl, inr, false, ◌||◌, Option, none, some, List, [], ◌∷◌, All, null, bytes_eq, has,
  find, assign-AreNamed, find-Entries, assign-Entries, Bool-cases, Option-cases,
}
use node_flow.Bytes.{Bytes}
use node_flow.Topology.{Host, Span, Node, Trace, Engine, tick}
use node_flow.Topology.Identity.{stable_edge_id}
use node_flow.Topology.Ingest.{
  resolve_or_create, count_node, admit_span, admit_spans, edge_span_key, count_edge, link_nodes,
  link_span, link_trace, link_touched,
}
use node_flow.Topology.State.RoundTrip.{IsStoredNode, IsStoredEdge, IsStoredTrace, IsStored}
use node_flow.Topology.State.Filed.{
  IsSpan, stored_maps, kept_nodes, kept_edges, kept_paths, kept_traces, resolved-IsStoredNode,
  join_trace-IsWhole,
}

module _ (h : Host) where
  count_node-IsStored :
      (span : Span h) (node : Option (Node h)) (e : Engine h)
      → IsStored h e
      → ((n : Node h) → node ≡ some n → null n.id ≡ false)
      → IsStored h (count_node h span node e)
  unfolding count_node
  count_node-IsStored span none e stored filled = stored
  count_node-IsStored span (some node) e stored filled =
      stored_maps h e _ _ _ _ _ _ _ _ _ _ _ _ stored
        (
          assign-AreNamed node.id _ e.nodes stored.one_node,
          assign-Entries (IsStoredNode h) node.id _ e.nodes (refl, filled node refl) stored.nodes,
        )
        (kept_edges h e stored) (kept_paths h e stored) (kept_traces h e stored)

  admit_span-IsStored :
      (span : Span h) (e : Engine h)
      → IsSpan h span
      → IsStored h e
      → IsStored h (admit_span h span e)
  unfolding admit_span resolve_or_create
  admit_span-IsStored span e named stored = elim (Bool-cases (has span.span_id e.seen_span_ids)) [
    | inl seen ↦ rw (admit_span, seen) stored
    | inr new ↦
        rw (admit_span, new)
          (count_node-IsStored span (resolve_or_create h e span) _
            (stored_maps h e _ _ _ _ _ _ _ _ _ _ _ _ stored (kept_nodes h e stored)
              (kept_edges h e stored) (kept_paths h e stored)
              (
                assign-AreNamed span.trace_id _ e.traces stored.one_trace,
                assign-Entries (IsStoredTrace h) span.trace_id _ e.traces
                    (join_trace-IsWhole h (tick e.clock) span e named stored) stored.traces,
              ))
            (λ n same. resolved-IsStoredNode h e span n stored same))
  ]

  pub admit_spans-IsStored :
      (spans : List (Span h)) (e : Engine h)
      → All (IsSpan h) spans
      → IsStored h e
      → IsStored h (admit_spans h spans e)
  unfolding admit_spans
  admit_spans-IsStored [] e all stored = stored
  admit_spans-IsStored (span ∷ spans) e (named, all) stored =
      admit_spans-IsStored spans (admit_span h span e) all (admit_span-IsStored span e named stored)

  edge_id-filled : (a b : Bytes) → null (stable_edge_id a b) ≡ false
  unfolding stable_edge_id
  edge_id-filled a b = refl

  count_edge-IsStored :
      (child : Span h) (a b : Node h) (e : Engine h)
      → IsStored h e
      → IsStored h (count_edge h child a b e)
  unfolding count_edge
  count_edge-IsStored child a b e stored =
      elim (Option-cases (find (stable_edge_id a.id b.id) e.edges)) [
        | inl missing ↦
            rw (count_edge, missing)
              (stored_maps h e _ _ _ _ _ _ _ _ _ _ _ _ stored (kept_nodes h e stored)
                (
                  assign-AreNamed (stable_edge_id a.id b.id) _ e.edges stored.one_edge,
                  assign-Entries (IsStoredEdge h) (stable_edge_id a.id b.id) _ e.edges
                      (refl, edge_id-filled a.id b.id) stored.edges,
                )
                (kept_paths h e stored) (kept_traces h e stored))
        | inr (edge, found) ↦
            rw (count_edge, found)
              (stored_maps h e _ _ _ _ _ _ _ _ _ _ _ _ stored (kept_nodes h e stored)
                (
                  assign-AreNamed (stable_edge_id a.id b.id) _ e.edges stored.one_edge,
                  assign-Entries (IsStoredEdge h) (stable_edge_id a.id b.id) _ e.edges
                      (find-Entries (IsStoredEdge h) (stable_edge_id a.id b.id) edge e.edges
                        stored.edges found)
                      stored.edges,
                )
                (kept_paths h e stored) (kept_traces h e stored))
      ]

  link_nodes-IsStored :
      (child : Span h) (above below : Option (Node h)) (e : Engine h)
      → IsStored h e
      → IsStored h (link_nodes h child above below e)
  unfolding link_nodes
  link_nodes-IsStored child none below e stored = stored
  link_nodes-IsStored child (some a) none e stored = stored
  link_nodes-IsStored child (some a) (some b) e stored = elim (Bool-cases (bytes_eq a.id b.id)) [
    | inl same ↦ rw (link_nodes, same) stored
    | inr apart ↦ rw (link_nodes, apart) (count_edge-IsStored child a b e stored)
  ]

  link_span-IsStored :
      (trace : Trace h) (child : Span h) (e : Engine h)
      → IsStored h e
      → IsStored h (link_span h trace child e)
  unfolding link_span
  link_span-IsStored trace child e stored =
      elim (Bool-cases (
        null child.parent_span_id
        || has (edge_span_key child.trace_id child.span_id) e.seen_edge_span_ids)) [
          | inl skipped ↦ rw (link_span, skipped) stored
          | inr kept ↦ rw (link_span, kept) (link_nodes-IsStored child _ _ e stored)
        ]

  link_trace-IsStored :
      (trace : Trace h) (ids : List Bytes) (e : Engine h)
      → IsStored h e
      → IsStored h (link_trace h trace ids e)
  unfolding link_trace
  link_trace-IsStored trace [] e stored = stored
  link_trace-IsStored trace (id ∷ ids) e stored = elim (Option-cases (find id trace.spans)) [
    | inl missing ↦ rw (link_trace, missing) (link_trace-IsStored trace ids e stored)
    | inr (child, found) ↦
        rw (link_trace, found)
          (link_trace-IsStored trace ids (link_span h trace child e)
            (link_span-IsStored trace child e stored))
  ]

  pub link_touched-IsStored :
      (ids : List Bytes) (e : Engine h) → IsStored h e → IsStored h (link_touched h ids e)
  unfolding link_touched
  link_touched-IsStored [] e stored = stored
  link_touched-IsStored (id ∷ ids) e stored = elim (Option-cases (find id e.traces)) [
    | inl missing ↦ rw (link_touched, missing) (link_touched-IsStored ids e stored)
    | inr (trace, found) ↦
        rw (link_touched, found)
          (link_touched-IsStored ids (link_trace h trace trace.span_order e)
            (link_trace-IsStored trace trace.span_order e stored))
  ]
