-- ===== src/Topology/State/Filed.antt =====
-- runtime/go/internal/topology/engine.go: lemmas on the first two loops of `Ingest` and what a
-- checkpoint can hold.
use node_flow.Prelude.{
  ℕ, ◌≡◌, refl, subst, ◌∙◌, inl, inr, false, not, ◌&&◌, Option, some, some-injective, List, [], ◌∷◌,
  ◌++◌, null, bytes_eq, bytes_eq_sound, has, find, assign, AreNamed, assign-AreNamed, Entries,
  find-Entries, assign-Entries, keys, Bool-cases, Option-cases, arith,
}
use node_flow.Bytes.{Bytes}
use node_flow.Topology.{Host, Span, Node, Edge, RuntimePath, Trace, RuntimeMetrics, Engine}
use node_flow.Topology.Identity.{
  stable_node_id, normalize_semantic_identity, or_unknown, under_kind, under_framework, has_prefix,
}
use node_flow.Topology.Ingest.{topology_kinds, node_id, new_node, resolve_or_create, join_trace}
use node_flow.Topology.State.Sorted.{assign_new}
use node_flow.Topology.State.RoundTrip.{
  IsStoredNode, IsStoredEdge, IsStoredPath, IsStoredTrace, IsStored,
}

module _ {ℓ} {V : Type ℓ} where
  keys-append :
      (m : List (Bytes × V)) (k : Bytes) (v : V) → keys (m ++ ((k, v) ∷ [])) ≡ keys m ++ (k ∷ [])
  keys-append [] k v = refl
  keys-append ((j, w) ∷ m) k v = rw (keys-append m k v) refl

  keys-assign_old :
      (k : Bytes) (v w : V) (m : List (Bytes × V))
      → find k m ≡ some w
      → keys (assign k v m) ≡ keys m
  unfolding assign find
  keys-assign_old k v w [] e = absurd (ground arith)
  keys-assign_old k v w ((j, u) ∷ m) e = elim (Bool-cases (bytes_eq j k)) [
    | inl same ↦ rw (assign, same, bytes_eq_sound j k same) refl
    | inr other ↦ rw (assign, other, keys-assign_old k v w m (rw (find, other) at e)) refl
  ]

null-append : (a b : Bytes) (c : ℕ) → null (a ++ (c ∷ b)) ≡ false
null-append [] b c = refl
null-append (x ∷ a) b c = refl

module _ (h : Host) where
  -- A span with identifiers.
  abbrev pub IsSpan : Span h → Type 0
  IsSpan s = (null s.trace_id ≡ false) × (null s.span_id ≡ false)

  or_unknown-filled : (identity : Bytes) → null (or_unknown h identity) ≡ false
  or_unknown-filled [] = refl
  or_unknown-filled (c ∷ cs) = refl

  under_kind-filled :
      (kind identity : Bytes) → null identity ≡ false → null (under_kind h kind identity) ≡ false
  under_kind-filled kind identity filled =
      elim (Bool-cases
        (not (bytes_eq identity kind) && not (has_prefix identity (kind ++ (b':' ∷ []))))) [
          | inl outside ↦ rw outside (null-append kind identity b':')
          | inr inside ↦ rw inside filled
        ]

  under_framework-filled :
      (framework identity : Bytes)
      → null identity ≡ false
      → null (under_framework h framework identity) ≡ false
  under_framework-filled framework identity filled =
      elim (Bool-cases
        (not (null framework) && not (has_prefix identity (framework ++ (b':' ∷ []))))) [
          | inl outside ↦ rw outside (null-append framework identity b':')
          | inr inside ↦ rw inside filled
        ]

  -- A stable identifier of a node is never empty.
  pub stable_node_id-filled :
      (kind identity framework : Bytes) → null (stable_node_id h kind identity framework) ≡ false
  unfolding stable_node_id
  stable_node_id-filled kind identity framework =
      under_framework-filled (normalize_semantic_identity h framework) _ (
        under_kind-filled (normalize_semantic_identity h kind) _
          (or_unknown-filled (normalize_semantic_identity h identity)))

  node_id-filled : (span : Span h) → null (node_id h span) ≡ false
  unfolding node_id
  node_id-filled span = stable_node_id-filled span.kind _ _

  pub stored_maps :
      (e : Engine h) (nodes : List (Bytes × Node h)) (edges : List (Bytes × Edge h))
      (paths : List (Bytes × RuntimePath h)) (traces : List (Bytes × Trace h))
      (seen seen_edges names active_nodes active_edges : List Bytes) (clock revision : ℕ)
      (runtime : Option (RuntimeMetrics h))
      → IsStored h e
      → AreNamed nodes × Entries (IsStoredNode h) nodes
      → AreNamed edges × Entries (IsStoredEdge h) edges
      → AreNamed paths × Entries (IsStoredPath h) paths
      → AreNamed traces × Entries (IsStoredTrace h) traces
      → IsStored h (record e {
        nodes = nodes;
        edges = edges;
        paths = paths;
        traces = traces;
        seen_span_ids = seen;
        seen_edge_span_ids = seen_edges;
        application_names = names;
        active_nodes = active_nodes;
        active_edges = active_edges;
        clock = clock;
        revision = revision;
        runtime = runtime;
      })
  stored_maps e nodes edges paths traces seen seen_edges names active_nodes active_edges clock
        revision runtime stored n d p t =
      record {
        one_node = n.0;
        nodes = n.1;
        one_edge = d.0;
        edges = d.1;
        one_path = p.0;
        paths = p.1;
        one_trace = t.0;
        traces = t.1;
        version = stored.version;
        traces_positive = stored.traces_positive;
        samples_positive = stored.samples_positive;
        paths_positive = stored.paths_positive;
      }

  pub kept_nodes :
      (e : Engine h) → IsStored h e → AreNamed e.nodes × Entries (IsStoredNode h) e.nodes
  kept_nodes e stored = (stored.one_node, stored.nodes)

  pub kept_edges :
      (e : Engine h) → IsStored h e → AreNamed e.edges × Entries (IsStoredEdge h) e.edges
  kept_edges e stored = (stored.one_edge, stored.edges)

  pub kept_paths :
      (e : Engine h) → IsStored h e → AreNamed e.paths × Entries (IsStoredPath h) e.paths
  kept_paths e stored = (stored.one_path, stored.paths)

  pub kept_traces :
      (e : Engine h) → IsStored h e → AreNamed e.traces × Entries (IsStoredTrace h) e.traces
  kept_traces e stored = (stored.one_trace, stored.traces)

  -- A node that a span calls stands under its own identifier.
  pub resolved-IsStoredNode :
      (e : Engine h) (span : Span h) (node : Node h)
      → IsStored h e
      → resolve_or_create h e span ≡ some node
      → null node.id ≡ false
  unfolding resolve_or_create new_node
  resolved-IsStoredNode e span node stored same = elim (Bool-cases (has span.kind topology_kinds)) [
    | inr other ↦ absurd (ground (arith, rw (resolve_or_create, other) at same))
    | inl here ↦ elim (Option-cases (find (node_id h span) e.nodes)) [
      | inl missing ↦
          let made =
            some-injective (new_node h span) node (rw (resolve_or_create, here, missing) at same) in
          subst (λ (n : Node h). null n.id ≡ false) made (node_id-filled span)
      | inr (known, found) ↦
          let made = some-injective known node (rw (resolve_or_create, here, found) at same) in
          let sound =
            find-Entries (IsStoredNode h) (node_id h span) known e.nodes stored.nodes found in
          subst (λ (n : Node h). null n.id ≡ false) made (rw (sound.0) (node_id-filled span))
    ]
  ]

  pub join_trace-IsWhole :
      (clock : ℕ) (span : Span h) (e : Engine h)
      → IsSpan span
      → IsStored h e
      → IsStoredTrace h span.trace_id (join_trace h clock span (find span.trace_id e.traces))
  unfolding join_trace find
  join_trace-IsWhole clock span e (traced, filled) stored =
      elim (Option-cases (find span.trace_id e.traces)) [
        | inl missing ↦ rw missing (
          refl,
          traced,
          record { in_order = refl; one_each = (refl, tt); spans = ((refl, filled), tt) },
        )
        | inr (trace, found) ↦
            let sound =
              find-Entries (IsStoredTrace h) span.trace_id trace e.traces stored.traces found in
            let whole = sound.2 in
            let spans =
              assign-Entries (λ k (s : Span h). (s.span_id ≡ k) × (null k ≡ false)) span.span_id
                span trace.spans (refl, filled) whole.spans in
            let one_each = assign-AreNamed span.span_id span trace.spans whole.one_each in
            rw found (elim (Option-cases (find span.span_id trace.spans)) [
              | inl new ↦ rw new (
                sound.0,
                traced,
                record {
                  in_order =
                      rw
                        (
                          assign_new span.span_id span trace.spans new,
                          keys-append trace.spans span.span_id span,
                          whole.in_order,
                        )
                        refl;
                  one_each = one_each;
                  spans = spans;
                },
              )
              | inr (old, known) ↦ rw known (
                sound.0,
                traced,
                record {
                  in_order =
                      keys-assign_old span.span_id span old trace.spans known ∙ whole.in_order;
                  one_each = one_each;
                  spans = spans;
                },
              )
            ])
      ]
