-- ===== src/Topology/Totals.antt =====
-- runtime/go/internal/topology/engine.go: the calls and the errors that all nodes count together.
use node_flow.Prelude.{
  ℕ, ◌+◌, ◌≡◌, refl, subst, ◌∙◌, ap, inl, inr, Bool, true, false, not, ◌&&◌, ◌||◌, none, some,
  some-injective, List, [], ◌∷◌, bytes_eq, has, find, assign, find-Entries, Bool-cases,
  Option-cases, if◌then◌else◌, arith,
}
use node_flow.Bytes.{Bytes}
use node_flow.Topology.{Host, Span, Metric, Node, Engine}
use node_flow.Topology.Metrics.{no_metric, record_metric}
use node_flow.Topology.Ingest.{
  topology_kinds, node_id, new_node, resolve_or_create, count_node, is_error,
}
use node_flow.Topology.Sound.{Limits, IsNode, IsEngine}

module _ (h : Host) where
  -- The calls of a metric, or its errors.
  unfoldable pub calls : Bool → Metric h → ℕ
  calls false m = m.count
  calls true m = m.errors

  -- What the nodes count together.
  unfoldable pub total : Bool → List (Bytes × Node h) → ℕ
  total failing [] = 0
  total failing ((id, node) ∷ nodes) = calls failing node.metrics + total failing nodes

  -- Whether a span is to be counted: it has a topology kind, and is an error where those are asked for.
  unfoldable pub is_counted_span : Bool → Span h → Bool
  is_counted_span failing span = has span.kind topology_kinds && (not failing || is_error h span)

  -- The spans to be counted that a batch brings for the first time.
  unfoldable pub fresh : Bool → List Bytes → List (Span h) → ℕ
  fresh failing seen [] = 0
  fresh failing seen (span ∷ spans) =
      let again = fresh failing seen spans in
      let first = fresh failing (span.span_id ∷ seen) spans in
      if has span.span_id seen
      then again
      else if is_counted_span failing span
      then first + 1
      else first

  total-assign_old :
      (failing : Bool) (k : Bytes) (v w : Node h) (nodes : List (Bytes × Node h))
      → find k nodes ≡ some w
      → total failing (assign k v nodes) + calls failing w.metrics
        ≡ total failing nodes + calls failing v.metrics
  unfolding total assign find
  total-assign_old failing k v w [] e = absurd (ground arith)
  total-assign_old failing k v w ((j, u) ∷ nodes) e = elim (Bool-cases (bytes_eq j k)) [
    | inl same ↦
        let made =
          ap (λ (n : Node h). calls failing n.metrics)
            (some-injective u w (rw (find, same) at e)) in
        rw (assign, same) (omega (arith, made))
    | inr other ↦
        rw (assign, other)
          (omega (arith, total-assign_old failing k v w nodes (rw (find, other) at e)))
  ]

  total-assign_new :
      (failing : Bool) (k : Bytes) (v : Node h) (nodes : List (Bytes × Node h))
      → find k nodes ≡ none
      → total failing (assign k v nodes) ≡ total failing nodes + calls failing v.metrics
  unfolding total assign find
  total-assign_new failing k v [] e = omega arith
  total-assign_new failing k v ((j, u) ∷ nodes) e = elim (Bool-cases (bytes_eq j k)) [
    | inl same ↦ absurd (ground (arith, rw (find, same) at e))
    | inr other ↦
        rw (assign, other)
          (omega (arith, total-assign_new failing k v nodes (rw (find, other) at e)))
  ]

  calls-no_metric : (failing : Bool) → calls failing (no_metric h) ≡ 0
  unfolding calls
  calls-no_metric false = refl
  calls-no_metric true = refl

  calls-record_metric :
      (failing : Bool) (limit : ℕ) (m : Metric h) (span : Span h)
      → has span.kind topology_kinds ≡ true
      → calls failing (record_metric h limit m span.duration (is_error h span))
        ≡ calls failing m + (if is_counted_span failing span then 1 else 0)
  unfolding calls record_metric is_counted_span
  calls-record_metric false limit m span here = rw here (omega arith)
  calls-record_metric true limit m span here = elim (Bool-cases (is_error h span)) [
    | inl failed ↦ rw (here, failed) (omega arith)
    | inr fine ↦ rw (here, fine) (omega arith)
  ]

  -- A span without a node is of another kind.
  resolve_or_create-none :
      (e : Engine h) (span : Span h)
      → resolve_or_create h e span ≡ none
      → has span.kind topology_kinds ≡ false
  unfolding resolve_or_create
  resolve_or_create-none e span same = elim (Bool-cases (has span.kind topology_kinds)) [
    | inr other ↦ other
    | inl here ↦ elim (Option-cases (find (node_id h span) e.nodes)) [
      | inl missing ↦ absurd (ground (arith, rw (resolve_or_create, here, missing) at same))
      | inr (known, found) ↦ absurd (ground (arith, rw (resolve_or_create, here, found) at same))
    ]
  ]

  resolve_or_create-some :
      (e : Engine h) (span : Span h) (node : Node h)
      → resolve_or_create h e span ≡ some node
      → has span.kind topology_kinds ≡ true
  unfolding resolve_or_create
  resolve_or_create-some e span node same = elim (Bool-cases (has span.kind topology_kinds)) [
    | inl here ↦ here
    | inr other ↦ absurd (ground (arith, rw (resolve_or_create, other) at same))
  ]

  -- The total behind a new value of the node that a span calls.
  total-resolved :
      (limits : Limits) (failing : Bool) (span : Span h) (e : Engine h) (node v : Node h)
      → IsEngine h limits e
      → resolve_or_create h e span ≡ some node
      → total failing (assign node.id v e.nodes) + calls failing node.metrics
        ≡ total failing e.nodes + calls failing v.metrics
  unfolding resolve_or_create new_node
  total-resolved limits failing span e node v fine same =
      let here = resolve_or_create-some e span node same in
      elim (Option-cases (find (node_id h span) e.nodes)) [
        | inl missing ↦
            let made =
              some-injective (new_node h span) node
                (rw (resolve_or_create, here, missing) at same) in
            subst
              (λ (n : Node h).
                total failing (assign n.id v e.nodes) + calls failing n.metrics
                ≡ total failing e.nodes + calls failing v.metrics)
              made
              (omega (
                arith,
                total-assign_new failing (node_id h span) v e.nodes missing,
                calls-no_metric failing,
              ))
        | inr (known, found) ↦
            let made = some-injective known node (rw (resolve_or_create, here, found) at same) in
            let sound =
              find-Entries (IsNode h limits) (node_id h span) known e.nodes fine.nodes found in
            subst
              (λ (n : Node h).
                total failing (assign n.id v e.nodes) + calls failing n.metrics
                ≡ total failing e.nodes + calls failing v.metrics)
              made
              (total-assign_old failing known.id v known e.nodes
                (ap (λ k. find k e.nodes) sound.named ∙ found))
      ]

  pub count_node-total :
      (limits : Limits) (failing : Bool) (span : Span h) (e f : Engine h)
      → IsEngine h limits e
      → f.nodes ≡ e.nodes
      → total failing ((count_node h span (resolve_or_create h e span) f).nodes)
        ≡ total failing e.nodes + (if is_counted_span failing span then 1 else 0)
  unfolding count_node is_counted_span
  count_node-total limits failing span e f fine same =
      elim (Option-cases (resolve_or_create h e span)) [
        | inl missing ↦ rw (missing, resolve_or_create-none e span missing, same) (omega arith)
        | inr (node, found) ↦
            let here = resolve_or_create-some e span node found in
            let v : Node h = record node {
              metrics =
                  record_metric h f.max_latency_samples node.metrics span.duration
                    (is_error h span);
            } in
            rw (found, same)
              (omega (
                arith,
                total-resolved limits failing span e node v fine found,
                calls-record_metric failing f.max_latency_samples node.metrics span here,
              ))
      ]
