-- ===== src/Topology/Delivery.antt =====
-- runtime/go/internal/topology/engine.go: theorems on the calls that `Ingest` counts.
use node_flow.Prelude.{
  ◌+◌, ◌≤◌, ◌≡◌, refl, sym, subst, ◌∙◌, ap, inl, inr, Bool, true, Option, none, some, List, [], ◌∷◌,
  length, All, bytes_eq_self, has, length-assign, Bool-cases, if◌then◌else◌, arith,
}
use node_flow.Bytes.{Bytes}
use node_flow.Topology.{Host, Span, Node, Engine}
use node_flow.Topology.Ingest.{count_node, admit_span, admit_spans, touched_traces, link_touched}
use node_flow.Topology.Batch.{start_batch, aggregate_touched, ingest}
use node_flow.Topology.Totals.{total, is_counted_span, fresh, count_node-total}
use node_flow.Topology.Sound.{Limits, IsEngine}
use node_flow.Topology.Linked.{admit_span-IsEngine, link_touched-IsEngine}
use node_flow.Topology.Whole.{
  same_maps-IsEngine, admitted-IsEngine, linked-IsEngine, ingest-IsEngine,
}
use node_flow.Topology.Quiet.{
  IsQuiet, IsQuiet-trans, link_touched-IsQuiet, aggregate_touched-IsQuiet, trim_traces-nodes,
  trim_traces_few,
}

module _ (h : Host) where
  admit_span-total :
      (limits : Limits) (failing : Bool) (span : Span h) (e : Engine h)
      → IsEngine h limits e
      → total h failing ((admit_span h span e).nodes)
        ≡ total h failing e.nodes
          + (if has span.span_id e.seen_span_ids
              then 0
              else if is_counted_span h failing span
              then 1
              else 0)
  unfolding admit_span
  admit_span-total limits failing span e fine =
      elim (Bool-cases (has span.span_id e.seen_span_ids)) [
        | inl seen ↦ rw (admit_span, seen) (omega arith)
        | inr new ↦ rw (admit_span, new) (count_node-total h limits failing span e _ fine refl)
      ]

  count_node-seen :
      (span : Span h) (node : Option (Node h)) (e : Engine h)
      → (count_node h span node e).seen_span_ids ≡ e.seen_span_ids
  unfolding count_node
  count_node-seen span none e = refl
  count_node-seen span (some node) e = refl

  admit_span-seen :
      (span : Span h) (e : Engine h)
      → (admit_span h span e).seen_span_ids ≡ (
          if has span.span_id e.seen_span_ids
          then e.seen_span_ids
          else span.span_id ∷ e.seen_span_ids)
  unfolding admit_span
  admit_span-seen span e = elim (Bool-cases (has span.span_id e.seen_span_ids)) [
    | inl seen ↦ rw (admit_span, seen) refl
    | inr new ↦ rw (admit_span, new) (count_node-seen span _ _)
  ]

  admit_spans-total :
      (limits : Limits) (failing : Bool) (spans : List (Span h)) (e : Engine h)
      → IsEngine h limits e
      → total h failing ((admit_spans h spans e).nodes)
        ≡ total h failing e.nodes + fresh h failing e.seen_span_ids spans
  unfolding admit_spans fresh
  admit_spans-total limits failing [] e fine = omega arith
  admit_spans-total limits failing (span ∷ spans) e fine =
      let here = admit_span-total limits failing span e fine in
      let seen2 = admit_span-seen span e in
      let rest =
        admit_spans-total limits failing spans (admit_span h span e)
          (admit_span-IsEngine h limits span e fine) in
      elim (Bool-cases (has span.span_id e.seen_span_ids)) [
        | inl seen ↦ rw seen (
            rest
            ∙ (omega
                (arith, rw seen at here, ap (λ ids. fresh h failing ids spans) (rw seen at seen2))))
        | inr new ↦ rw new (
            rest
            ∙ (ground
                (arith, rw new at here, ap (λ ids. fresh h failing ids spans) (rw new at seen2))))
      ]

  later_loops-IsQuiet :
      (limits : Limits) (spans : List (Span h)) (e : Engine h)
      → 1 ≤ limits.paths
      → IsEngine h limits e
      → IsQuiet h (admit_spans h spans (start_batch h e)) (
          aggregate_touched h
            (touched_traces h spans [])
            (link_touched h (touched_traces h spans []) (admit_spans h spans (start_batch h e))))
  later_loops-IsQuiet limits spans e room fine =
      let admitted = admitted-IsEngine h limits spans e fine in
      IsQuiet-trans h _
        (link_touched h (touched_traces h spans []) (admit_spans h spans (start_batch h e))) _
        (link_touched-IsQuiet h (touched_traces h spans []) (admit_spans h spans (start_batch h e)))
        (aggregate_touched-IsQuiet h limits (touched_traces h spans []) _ room
          (link_touched-IsEngine h limits (touched_traces h spans []) _ admitted))

  -- What a batch makes of the nodes is the work of its first loop.
  ingest-nodes :
      (limits : Limits) (spans : List (Span h)) (e : Engine h)
      → 1 ≤ limits.paths
      → IsEngine h limits e
      → (ingest h spans e).nodes ≡ (admit_spans h spans (start_batch h e)).nodes
  unfolding ingest start_batch
  ingest-nodes limits spans e room fine =
      trim_traces-nodes h _ ∙ (later_loops-IsQuiet limits spans e room fine).nodes

  -- One batch adds to the calls that all nodes count together as many as it brings new spans of the
  -- topology kinds, and to the errors as many as it brings new failed ones, under a sound engine with a
  -- positive limit of paths.
  pub ingest-total :
      (limits : Limits) (failing : Bool) (spans : List (Span h)) (e : Engine h)
      → 1 ≤ limits.paths
      → IsEngine h limits e
      → total h failing ((ingest h spans e).nodes)
        ≡ total h failing e.nodes + fresh h failing e.seen_span_ids spans
  unfolding start_batch
  ingest-total limits failing spans e room fine =
      ap (λ nodes. total h failing nodes) (ingest-nodes limits spans e room fine)
      ∙ admit_spans-total limits failing spans (start_batch h e)
          (same_maps-IsEngine h limits e _ _ _ _ _ _ fine)

  admit_spans_again :
      (spans : List (Span h)) (e : Engine h)
      → All (λ s. has s.span_id e.seen_span_ids ≡ true) spans
      → admit_spans h spans e ≡ e
  unfolding admit_spans admit_span
  admit_spans_again [] e all = refl
  admit_spans_again (span ∷ spans) e (here, all) =
      rw (admit_spans, admit_span, here) (admit_spans_again spans e all)

  admit_span-keeps :
      (k : Bytes) (span : Span h) (e : Engine h)
      → has k e.seen_span_ids ≡ true
      → has k ((admit_span h span e).seen_span_ids) ≡ true
  admit_span-keeps k span e here = rw (admit_span-seen span e) (ground (arith, here))

  admit_spans-keeps :
      (k : Bytes) (spans : List (Span h)) (e : Engine h)
      → has k e.seen_span_ids ≡ true
      → has k ((admit_spans h spans e).seen_span_ids) ≡ true
  unfolding admit_spans
  admit_spans-keeps k [] e here = here
  admit_spans-keeps k (span ∷ spans) e here =
      admit_spans-keeps k spans (admit_span h span e) (admit_span-keeps k span e here)

  -- Behind the first loop each span of the batch is known.
  admit_spans-seen :
      (spans : List (Span h)) (e : Engine h)
      → All (λ s. has s.span_id ((admit_spans h spans e).seen_span_ids) ≡ true) spans
  unfolding admit_spans
  admit_spans-seen [] e = tt
  admit_spans-seen (span ∷ spans) e = (
    admit_spans-keeps span.span_id spans (admit_span h span e)
        (rw (admit_span-seen span e) (ground (arith, bytes_eq_self span.span_id))),
    admit_spans-seen spans (admit_span h span e),
  )

  count_node-traces :
      (span : Span h) (node : Option (Node h)) (e : Engine h)
      → (count_node h span node e).traces ≡ e.traces
  unfolding count_node
  count_node-traces span none e = refl
  count_node-traces span (some node) e = refl

  length-admit_span :
      (span : Span h) (e : Engine h) → length ((admit_span h span e).traces) ≤ length e.traces + 1
  unfolding admit_span
  length-admit_span span e = elim (Bool-cases (has span.span_id e.seen_span_ids)) [
    | inl seen ↦ rw (admit_span, seen) (omega arith)
    | inr new ↦
        rw (admit_span, new, count_node-traces span _ _) (length-assign span.trace_id _ e.traces)
  ]

  pub length-admit_spans :
      (spans : List (Span h)) (e : Engine h)
      → length ((admit_spans h spans e).traces) ≤ length e.traces + length spans
  unfolding admit_spans
  length-admit_spans [] e = omega arith
  length-admit_spans (span ∷ spans) e =
      omega (arith, length-admit_span span e, length-admit_spans spans (admit_span h span e))

  -- Where the limit has room for all traces behind the first loop, nothing is forgotten.
  ingest-seen :
      (limits : Limits) (spans : List (Span h)) (e : Engine h)
      → 1 ≤ limits.paths
      → IsEngine h limits e
      → length ((admit_spans h spans (start_batch h e)).traces) ≤ limits.traces
      → (ingest h spans e).seen_span_ids ≡ (admit_spans h spans (start_batch h e)).seen_span_ids
  unfolding ingest start_batch
  ingest-seen limits spans e room fine few =
      let quiet = later_loops-IsQuiet limits spans e room fine in
      let linked = linked-IsEngine h limits spans e room fine in
      let kept = trim_traces_few h _ (omega (arith, quiet.traces, linked.trace_limit)) in
      ap (λ (f : Engine h). f.seen_span_ids) kept ∙ quiet.seen

  -- A batch that is delivered twice leaves every node, with its calls, errors and latencies, as the
  -- first delivery left it, under a sound engine with a positive limit of paths, where the limit of
  -- traces is not exceeded when the first delivery has taken the spans in, so that no trace is trimmed.
  pub ingest_twice :
      (limits : Limits) (spans : List (Span h)) (e : Engine h)
      → 1 ≤ limits.paths
      → IsEngine h limits e
      → length ((admit_spans h spans (start_batch h e)).traces) ≤ limits.traces
      → (ingest h spans (ingest h spans e)).nodes ≡ (ingest h spans e).nodes
  unfolding start_batch
  ingest_twice limits spans e room fine few =
      let once = ingest h spans e in
      ingest-nodes limits spans once room ((ingest-IsEngine h limits spans e room fine).0)
      ∙ ap (λ (f : Engine h). f.nodes)
          (admit_spans_again spans (start_batch h once) (
            subst (λ ids. All (λ (s : Span h). has s.span_id ids ≡ true) spans)
              (sym (ingest-seen limits spans e room fine few))
              (admit_spans-seen spans (start_batch h e))))
