-- ===== src/Topology/Sound.antt =====
-- runtime/go/internal/topology/engine.go: the invariant of the engine's maps, and the steps of the
-- first two loops of `Ingest` under it.
use node_flow.Prelude.{
  ℕ, ◌≤◌, ◌≡◌, refl, sym, subst, inl, inr, true, false, Option, none, some, some-injective, List,
  length, bytes_eq, has, find, assign, AreNamed, Entries, find-Entries, assign-Entries, map-Entries,
  keys, keys-assign, find-keys, Bool-cases, Option-cases, arith,
}
use node_flow.Bytes.{Bytes}
use node_flow.Topology.{Host, Span, Node, Edge, RuntimePath, Trace, Engine}
use node_flow.Topology.Identity.{stable_edge_id}
use node_flow.Topology.Metrics.{IsMetric, no_metric-IsMetric, record_metric-IsMetric}
use node_flow.Topology.Ingest.{
  node_id, new_node, resolve_or_create, resolve_node, join_trace, count_node, is_error,
  topology_kinds,
}

-- The limits of an engine.
pub record Limits : Type 0 where
  pub traces : ℕ
  pub samples : ℕ
  pub paths : ℕ

module _ (h : Host) (limits : Limits) where
  -- A node stands under its identifier, and its metrics are sound.
  pub record IsNode (id : Bytes) (node : Node h) : Type 0 where
    pub named : node.id ≡ id
    pub metrics : IsMetric h limits.samples node.metrics

  -- An edge stands under its identifier, which is that of its ends, two known nodes.
  pub record IsEdge (known : List Bytes) (id : Bytes) (edge : Edge h) : Type 0 where
    pub named : edge.id ≡ id
    pub ends : stable_edge_id edge.source edge.target ≡ id
    pub apart : bytes_eq edge.source edge.target ≡ false
    pub source_known : has edge.source known ≡ true
    pub target_known : has edge.target known ≡ true
    pub metrics : IsMetric h limits.samples edge.metrics

  abbrev pub IsTrace : Bytes → Trace h → Type 0
  IsTrace id trace = trace.trace_id ≡ id

  -- A path stands under its identifier, and keeps no more latencies than the limit.
  pub record IsPath (id : Bytes) (path : RuntimePath h) : Type 0 where
    pub named : path.id ≡ id
    pub latencies_le : length path.metrics.latencies ≤ limits.samples

  pub record IsEngine (e : Engine h) : Type 0 where
    pub trace_limit : e.max_recent_traces ≡ limits.traces
    pub sample_limit : e.max_latency_samples ≡ limits.samples
    pub path_limit : e.max_runtime_paths ≡ limits.paths
    pub one_trace_each : AreNamed e.traces
    pub traces : Entries IsTrace e.traces
    pub nodes : Entries IsNode e.nodes
    pub edges : Entries (IsEdge (keys e.nodes)) e.edges
    pub paths : Entries IsPath e.paths
    pub paths_le : length e.paths ≤ limits.paths

  IsEdge-grow :
      (k : Bytes) (node : Node h) (nodes : List (Bytes × Node h)) (id : Bytes) (edge : Edge h)
      → IsEdge (keys nodes) id edge
      → IsEdge (keys (assign k node nodes)) id edge
  IsEdge-grow k node nodes id edge fine = record {
    named = fine.named;
    ends = fine.ends;
    apart = fine.apart;
    source_known = rw (keys-assign k edge.source node nodes, fine.source_known) (ground arith);
    target_known = rw (keys-assign k edge.target node nodes, fine.target_known) (ground arith);
    metrics = fine.metrics;
  }

  new_node-IsNode : (span : Span h) → IsNode (node_id h span) (new_node h span)
  unfolding new_node
  new_node-IsNode span = record { named = refl; metrics = no_metric-IsMetric h limits.samples }

  -- The node that a span calls stands under its own identifier.
  pub resolve_or_create-IsNode :
      (e : Engine h) (span : Span h) (node : Node h)
      → IsEngine e
      → resolve_or_create h e span ≡ some node
      → IsNode node.id node
  unfolding resolve_or_create new_node
  resolve_or_create-IsNode e span node fine same =
      elim (Bool-cases (has span.kind topology_kinds)) [
        | inr other ↦ absurd (ground (arith, rw other at same))
        | inl here ↦ elim (Option-cases (find (node_id h span) e.nodes)) [
          | inl missing ↦
              let made = some-injective (new_node h span) node (rw (here, missing) at same) in
              subst (λ (n : Node h). IsNode n.id n) made (new_node-IsNode span)
          | inr (known, found) ↦
              let made = some-injective known node (rw (here, found) at same) in
              let sound = find-Entries IsNode (node_id h span) known e.nodes fine.nodes found in
              subst (λ (n : Node h). IsNode n.id n) made
                (subst (λ id. IsNode id known) (sym (sound.named)) sound)
        ]
      ]

  pub resolve_node-known :
      (e : Engine h) (span : Span h) (node : Node h)
      → IsEngine e
      → resolve_node h e span ≡ some node
      → has node.id (keys e.nodes) ≡ true
  unfolding resolve_node
  resolve_node-known e span node fine same = elim (Bool-cases (has span.kind topology_kinds)) [
    | inr other ↦ absurd (ground (arith, rw other at same))
    | inl here ↦
        let found = rw here at same in
        let sound = find-Entries IsNode (node_id h span) node e.nodes fine.nodes found in
        rw sound.named (find-keys (node_id h span) node e.nodes found)
  ]

  -- The node's call is counted.
  pub count_node-IsEngine :
      (span : Span h) (node : Option (Node h)) (e : Engine h)
      → IsEngine e
      → ((n : Node h) → node ≡ some n → IsNode n.id n)
      → IsEngine (count_node h span node e)
  unfolding count_node
  count_node-IsEngine span none e fine sound = fine
  count_node-IsEngine span (some node) e fine sound = record {
    trace_limit = fine.trace_limit;
    sample_limit = fine.sample_limit;
    path_limit = fine.path_limit;
    one_trace_each = fine.one_trace_each;
    traces = fine.traces;
    nodes =
        assign-Entries IsNode node.id _ e.nodes
          (record {
            named = refl;
            metrics = rw fine.sample_limit (
                record_metric-IsMetric h limits.samples node.metrics span.duration (is_error h span)
                  ((sound node refl).metrics));
          })
          fine.nodes;
    edges =
        map-Entries (IsEdge (keys e.nodes)) _ e.edges (IsEdge-grow node.id _ e.nodes) fine.edges;
    paths = fine.paths;
    paths_le = fine.paths_le;
  }

  pub join_trace-IsTrace :
      (clock : ℕ) (span : Span h) (e : Engine h)
      → IsEngine e
      → IsTrace span.trace_id (join_trace h clock span (find span.trace_id e.traces))
  unfolding join_trace
  join_trace-IsTrace clock span e fine = elim (Option-cases (find span.trace_id e.traces)) [
    | inl missing ↦ rw missing refl
    | inr (trace, found) ↦
        rw found (find-Entries IsTrace span.trace_id trace e.traces fine.traces found)
  ]
