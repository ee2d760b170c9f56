-- ===== src/Topology/Quiet.antt =====
-- runtime/go/internal/topology/engine.go: lemmas on the fields that the later loops of `Ingest` keep.
use node_flow.Prelude.{
  ◌-◌, ◌≤◌, ◌≡◌, refl, ◌∙◌, inl, inr, ◌||◌, Option, none, some, List, [], ◌∷◌, length, bytes_eq,
  has, find, find-Entries, length-assign_old, Bool-cases, Option-cases, null, arith, ap,
}
use node_flow.Bytes.{Bytes}
use node_flow.Topology.{Host, Span, Node, Contribution, Trace, Engine}
use node_flow.Topology.Ingest.{
  edge_span_key, count_edge, link_nodes, link_span, link_trace, link_touched,
}
use node_flow.Topology.Trim.{forget_spans, forget_traces, trim_traces}
use node_flow.Topology.Paths.{build_trace}
use node_flow.Topology.Aggregate.{
  UniquePath, unique_paths, desired_paths, withdraw, is_desired, withdraw_stale, contribute,
  is_counted, contribute_all, aggregate,
}
use node_flow.Topology.Batch.{aggregate_touched}
use node_flow.Topology.Sound.{Limits, IsTrace, IsEngine}
use node_flow.Topology.Weighed.{aggregate-IsEngine}

module _ (h : Host) where
  -- The same nodes, admitted spans, limit, and number of traces.
  pub record IsQuiet (e f : Engine h) : Type 0 where
    pub nodes : f.nodes ≡ e.nodes
    pub seen : f.seen_span_ids ≡ e.seen_span_ids
    pub limit : f.max_recent_traces ≡ e.max_recent_traces
    pub traces : length f.traces ≡ length e.traces

  pub IsQuiet-refl : (e : Engine h) → IsQuiet e e
  IsQuiet-refl e = record { nodes = refl; seen = refl; limit = refl; traces = refl }

  pub IsQuiet-trans : (e f g : Engine h) → IsQuiet e f → IsQuiet f g → IsQuiet e g
  IsQuiet-trans e f g first second = record {
    nodes = second.nodes ∙ first.nodes;
    seen = second.seen ∙ first.seen;
    limit = second.limit ∙ first.limit;
    traces = second.traces ∙ first.traces;
  }

  link_nodes-IsQuiet :
      (child : Span h) (above below : Option (Node h)) (e : Engine h)
      → IsQuiet e (link_nodes h child above below e)
  unfolding link_nodes count_edge
  link_nodes-IsQuiet child none below e = IsQuiet-refl e
  link_nodes-IsQuiet child (some a) none e = IsQuiet-refl e
  link_nodes-IsQuiet child (some a) (some b) e = elim (Bool-cases (bytes_eq a.id b.id)) [
    | inl same ↦ rw (link_nodes, same) (IsQuiet-refl e)
    | inr apart ↦
        rw (link_nodes, apart) (record { nodes = refl; seen = refl; limit = refl; traces = refl })
  ]

  link_span-IsQuiet :
      (trace : Trace h) (child : Span h) (e : Engine h) → IsQuiet e (link_span h trace child e)
  unfolding link_span
  link_span-IsQuiet trace child e =
      elim (Bool-cases (
        null child.parent_span_id
        || has (edge_span_key child.trace_id child.span_id) e.seen_edge_span_ids)) [
          | inl skipped ↦ rw (link_span, skipped) (IsQuiet-refl e)
          | inr kept ↦ rw (link_span, kept) (link_nodes-IsQuiet child _ _ e)
        ]

  link_trace-IsQuiet :
      (trace : Trace h) (ids : List Bytes) (e : Engine h) → IsQuiet e (link_trace h trace ids e)
  unfolding link_trace
  link_trace-IsQuiet trace [] e = IsQuiet-refl e
  link_trace-IsQuiet trace (id ∷ ids) e = elim (Option-cases (find id trace.spans)) [
    | inl missing ↦ rw (link_trace, missing) (link_trace-IsQuiet trace ids e)
    | inr (child, found) ↦
        rw (link_trace, found)
          (IsQuiet-trans e (link_span h trace child e) _ (link_span-IsQuiet trace child e)
            (link_trace-IsQuiet trace ids (link_span h trace child e)))
  ]

  pub link_touched-IsQuiet : (ids : List Bytes) (e : Engine h) → IsQuiet e (link_touched h ids e)
  unfolding link_touched
  link_touched-IsQuiet [] e = IsQuiet-refl e
  link_touched-IsQuiet (id ∷ ids) e = elim (Option-cases (find id e.traces)) [
    | inl missing ↦ rw (link_touched, missing) (link_touched-IsQuiet ids e)
    | inr (trace, found) ↦
        rw (link_touched, found)
          (IsQuiet-trans e (link_trace h trace trace.span_order e) _
            (link_trace-IsQuiet trace trace.span_order e)
            (link_touched-IsQuiet ids (link_trace h trace trace.span_order e)))
  ]

  -- The same in all but the paths and the clock.
  pub record IsAside (e f : Engine h) : Type 0 where
    pub nodes : f.nodes ≡ e.nodes
    pub seen : f.seen_span_ids ≡ e.seen_span_ids
    pub limit : f.max_recent_traces ≡ e.max_recent_traces
    pub traces : f.traces ≡ e.traces

  IsAside-trans : (e f g : Engine h) → IsAside e f → IsAside f g → IsAside e g
  IsAside-trans e f g first second = record {
    nodes = second.nodes ∙ first.nodes;
    seen = second.seen ∙ first.seen;
    limit = second.limit ∙ first.limit;
    traces = second.traces ∙ first.traces;
  }

  IsAside-refl : (e : Engine h) → IsAside e e
  IsAside-refl e = record { nodes = refl; seen = refl; limit = refl; traces = refl }

  contribute_all-IsAside :
      (now : Contribution h) (previous : List (Bytes × Contribution h))
      (desired : List (Bytes × UniquePath)) (e : Engine h)
      → IsAside e (contribute_all h now previous desired e)
  unfolding contribute_all contribute
  contribute_all-IsAside now previous [] e = IsAside-refl e
  contribute_all-IsAside now previous ((id, path) ∷ desired) e =
      elim (Bool-cases (is_counted h now (find id previous) (find id e.paths))) [
        | inl counted ↦ rw (contribute_all, counted) (contribute_all-IsAside now previous desired e)
        | inr fresh ↦
            rw (contribute_all, fresh)
              (IsAside-trans e (contribute h now id path e) _
                (record { nodes = refl; seen = refl; limit = refl; traces = refl })
                (contribute_all-IsAside now previous desired (contribute h now id path e)))
      ]

  withdraw-IsAside :
      (id : Bytes) (contribution : Contribution h) (e : Engine h)
      → IsAside e (withdraw h id contribution e)
  unfolding withdraw
  withdraw-IsAside id contribution e = elim (Option-cases (find id e.paths)) [
    | inl missing ↦ rw (withdraw, missing) (IsAside-refl e)
    | inr (path, found) ↦
        rw (withdraw, found) (record { nodes = refl; seen = refl; limit = refl; traces = refl })
  ]

  withdraw_stale-IsAside :
      (desired : List (Bytes × UniquePath)) (now : Contribution h)
      (previous : List (Bytes × Contribution h)) (e : Engine h)
      → IsAside e (withdraw_stale h desired now previous e)
  unfolding withdraw_stale
  withdraw_stale-IsAside desired now [] e = IsAside-refl e
  withdraw_stale-IsAside desired now ((id, contribution) ∷ previous) e =
      elim (Bool-cases (is_desired h desired now id contribution)) [
        | inl same ↦ rw (withdraw_stale, same) (withdraw_stale-IsAside desired now previous e)
        | inr stale ↦
            rw (withdraw_stale, stale)
              (IsAside-trans e (withdraw h id contribution e) _ (withdraw-IsAside id contribution e)
                (withdraw_stale-IsAside desired now previous (withdraw h id contribution e)))
      ]

  aggregate-IsQuiet :
      (trace old : Trace h) (e : Engine h)
      → find trace.trace_id e.traces ≡ some old
      → IsQuiet e (aggregate h trace e)
  unfolding aggregate
  aggregate-IsQuiet trace old e known =
      let recent = build_trace h trace in
      let desired = desired_paths h (unique_paths h recent.roots []) [] in
      let now : Contribution h = record { duration = recent.duration; failed = recent.failed } in
      let weighed =
        IsAside-trans e (withdraw_stale h desired now trace.path_contributions e) _
          (withdraw_stale-IsAside desired now trace.path_contributions e)
          (contribute_all-IsAside now trace.path_contributions desired
            (withdraw_stale h desired now trace.path_contributions e)) in
      elim (Bool-cases (null recent.roots)) [
        | inl bare ↦ rw (aggregate, bare) (IsQuiet-refl e)
        | inr rooted ↦
            rw (aggregate, rooted)
              (record {
                nodes = weighed.nodes;
                seen = weighed.seen;
                limit = weighed.limit;
                traces = rw weighed.traces (length-assign_old trace.trace_id _ old e.traces known);
              })
      ]

  pub aggregate_touched-IsQuiet :
      (limits : Limits) (ids : List Bytes) (e : Engine h)
      → 1 ≤ limits.paths
      → IsEngine h limits e
      → IsQuiet e (aggregate_touched h ids e)
  unfolding aggregate_touched
  aggregate_touched-IsQuiet limits [] e room fine = IsQuiet-refl e
  aggregate_touched-IsQuiet limits (id ∷ ids) e room fine = elim (Option-cases (find id e.traces)) [
    | inl missing ↦
        rw (aggregate_touched, missing) (aggregate_touched-IsQuiet limits ids e room fine)
    | inr (trace, found) ↦
        let named = find-Entries (IsTrace h limits) id trace e.traces fine.traces found in
        rw (aggregate_touched, found)
          (IsQuiet-trans e (aggregate h trace e) _
            (aggregate-IsQuiet trace trace e (ap (λ k. find k e.traces) named ∙ found))
            (aggregate_touched-IsQuiet limits ids (aggregate h trace e) room
              (aggregate-IsEngine h limits trace e room fine)))
  ]

  forget_spans-nodes :
      (id : Bytes) (ids : List Bytes) (e : Engine h) → (forget_spans h id ids e).nodes ≡ e.nodes
  unfolding forget_spans
  forget_spans-nodes id [] e = refl
  forget_spans-nodes id (j ∷ ids) e = rw (forget_spans, forget_spans-nodes id ids _) refl

  forget_traces-nodes :
      (ts : List (Trace h)) (e : Engine h) → (forget_traces h ts e).nodes ≡ e.nodes
  unfolding forget_traces
  forget_traces-nodes [] e = refl
  forget_traces-nodes (t ∷ ts) e =
      rw (forget_traces, forget_traces-nodes ts _, forget_spans-nodes t.trace_id t.span_order _)
        refl

  pub trim_traces-nodes : (e : Engine h) → (trim_traces h e).nodes ≡ e.nodes
  unfolding trim_traces
  trim_traces-nodes e = forget_traces-nodes _ e

  -- Within the limit nothing is forgotten.
  pub trim_traces_few : (e : Engine h) → length e.traces ≤ e.max_recent_traces → trim_traces h e ≡ e
  unfolding trim_traces forget_traces
  trim_traces_few e few =
      let none_over : length e.traces - e.max_recent_traces ≡ 0 = omega arith in rw none_over refl
