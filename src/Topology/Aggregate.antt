-- ===== src/Topology/Aggregate.antt =====
-- runtime/go/internal/topology/engine.go: `aggregateRuntimePaths` and `removeLeastUsefulPath`. A map
-- that the source keeps beside the order of its keys is one association list.
use node_flow.Prelude.{
  ℕ, Bool, false, not, ◌&&◌, ◌||◌, Option, none, some, List, [], ◌∷◌, length, null, has, find,
  assign, remove, ltb, leb, ◌==◌, if◌then◌else◌,
}
use node_flow.Bytes.{Bytes}
use node_flow.Topology.{Host, RuntimePath, Contribution, Trace, Engine, tick}
use node_flow.Topology.Identity.{join_with, stable_path_id}
use node_flow.Topology.Metrics.{no_metric, record_metric, remove_record}
use node_flow.Topology.Paths.{TraceSpan, trace_span, entry_kinds, build_trace, collect_paths}

-- `uniquePath`.
pub record UniquePath : Type 0 where
  pub entrypoint : Bytes
  pub nodes : List Bytes

module _ (h : Host) where
  -- The loop over the paths of one root.
  unfoldable pub add_paths :
      Bytes → List (List Bytes) → List (Bytes × UniquePath) → List (Bytes × UniquePath)
  add_paths entrypoint [] unique = unique
  add_paths entrypoint (nodes ∷ more) unique = add_paths entrypoint more (
      if null nodes
      then unique
      else assign (join_with (b'>' ∷ []) nodes) (record { entrypoint = entrypoint; nodes = nodes })
          unique)

  -- The loop over the roots.
  unfoldable pub unique_paths :
      List (TraceSpan h) → List (Bytes × UniquePath) → List (Bytes × UniquePath)
  unique_paths [] unique = unique
  unique_paths (trace_span span id children ∷ roots) unique = unique_paths roots (
      if null id || not (has span.kind entry_kinds)
      then unique
      else add_paths span.name (collect_paths h (trace_span span id children) []) unique)

  -- `desired`, without the duration and the failure, which are the trace's.
  unfoldable pub desired_paths :
      List (Bytes × UniquePath) → List (Bytes × UniquePath) → List (Bytes × UniquePath)
  desired_paths [] desired = desired
  desired_paths ((key, path) ∷ unique) desired =
      desired_paths unique (assign (stable_path_id h path.entrypoint path.nodes) path desired)

  abbrev pub same_contribution : Contribution h → Contribution h → Bool
  same_contribution a b =
      h.eq_f a.duration b.duration && ((a.failed && b.failed) || (not a.failed && not b.failed))

  -- Takes a contribution back from its path.
  unfoldable pub withdraw : Bytes → Contribution h → Engine h → Engine h
  withdraw id contribution e = elim (find id e.paths) [
    | none ↦ e
    | some path ↦
        let metrics = remove_record h path.metrics contribution.duration contribution.failed in
        record e {
          paths =
              if metrics.count == 0
              then remove id e.paths
              else assign id (record path { metrics = metrics }) e.paths;
        }
  ]

  abbrev pub is_desired : List (Bytes × UniquePath) → Contribution h → Bytes → Contribution h → Bool
  is_desired desired now id contribution = elim (find id desired) [
    | none ↦ false
    | some path ↦ same_contribution now contribution
  ]

  -- The loop over the contributions so far.
  unfoldable pub withdraw_stale :
      List (Bytes × UniquePath)
      → Contribution h
      → List (Bytes × Contribution h)
      → Engine h
      → Engine h
  withdraw_stale desired now [] e = e
  withdraw_stale desired now ((id, contribution) ∷ contributions) e =
      withdraw_stale desired now contributions
        (if is_desired desired now id contribution then e else withdraw id contribution e)

  abbrev pub is_less_useful : RuntimePath h → RuntimePath h → Bool
  is_less_useful a b =
      ltb a.metrics.count b.metrics.count
      || ((a.metrics.count == b.metrics.count) && ltb a.last_updated_at b.last_updated_at)

  -- The loop over the paths: the first of the least useful ones.
  unfoldable pub least_useful : RuntimePath h → List (Bytes × RuntimePath h) → RuntimePath h
  least_useful candidate [] = candidate
  least_useful candidate ((j, path) ∷ paths) =
      let next = least_useful path paths in
      let same = least_useful candidate paths in
      if is_less_useful path candidate then next else same

  -- `removeLeastUsefulPath`.
  unfoldable pub remove_least_useful : List (Bytes × RuntimePath h) → List (Bytes × RuntimePath h)
  remove_least_useful [] = []
  remove_least_useful ((id, path) ∷ paths) =
      remove (least_useful path paths).id ((id, path) ∷ paths)

  -- The path behind an identifier, and the paths with room for it.
  unfoldable pub open_path :
      ℕ
      → Bytes
      → UniquePath
      → List (Bytes × RuntimePath h)
      → RuntimePath h × List (Bytes × RuntimePath h)
  open_path limit id path paths = elim (find id paths) [
    | some known ↦ (known, paths)
    | none ↦ (
      record {
        id = id;
        entrypoint = path.entrypoint;
        nodes = path.nodes;
        metrics = no_metric h;
        last_updated_at = 0;
      },
      if leb limit (length paths) then remove_least_useful paths else paths,
    )
  ]

  -- Counts the trace on a path.
  unfoldable pub contribute : Contribution h → Bytes → UniquePath → Engine h → Engine h
  contribute now id path e =
      let opened = open_path e.max_runtime_paths id path e.paths in
      let clock = tick e.clock in
      record e {
        paths =
            assign id
              (record (opened.0) {
                metrics =
                    record_metric h e.max_latency_samples opened.0.metrics now.duration now.failed;
                last_updated_at = clock;
              })
              opened.1;
        clock = clock;
      }

  abbrev pub is_counted : Contribution h → Option (Contribution h) → Option (RuntimePath h) → Bool
  is_counted now (some previous) (some path) = same_contribution previous now
  is_counted now _ _ = false

  -- The loop over the desired paths.
  unfoldable pub contribute_all :
      Contribution h
      → List (Bytes × Contribution h)
      → List (Bytes × UniquePath)
      → Engine h
      → Engine h
  contribute_all now previous [] e = e
  contribute_all now previous ((id, path) ∷ desired) e =
      contribute_all now previous desired (
        if is_counted now (find id previous) (find id e.paths) then e else contribute now id path e)

  -- `nextContributions`.
  unfoldable pub contributions :
      Contribution h → List (Bytes × UniquePath) → List (Bytes × Contribution h)
  contributions now [] = []
  contributions now ((id, path) ∷ desired) = (id, now) ∷ contributions now desired

  -- `aggregateRuntimePaths`.
  unfoldable pub aggregate : Trace h → Engine h → Engine h
  aggregate trace e =
      let recent = build_trace h trace in
      let desired = desired_paths (unique_paths recent.roots []) [] in
      let now : Contribution h = record { duration = recent.duration; failed = recent.failed } in
      let e2 =
        contribute_all now trace.path_contributions desired
          (withdraw_stale desired now trace.path_contributions e) in
      if null recent.roots then e else record e2 {
        traces =
            assign trace.trace_id (record trace { path_contributions = contributions now desired })
              e2.traces;
      }
