-- ===== src/Topology/Weighed.antt =====
-- runtime/go/internal/topology/engine.go: lemmas on `aggregateRuntimePaths` and the invariant of the
-- engine.
use node_flow.Prelude.{
  ◌≤◌, ◌<◌, ◌≡◌, refl, inl, inr, Bool, true, false, List, [], ◌∷◌, length, bytes_eq_self, has, find,
  assign, remove, assign-AreNamed, Entries, find-Entries, assign-Entries, remove-Entries, keys,
  length-assign, length-assign_old, length-remove, length-remove_key, Bool-cases, Option-cases,
  if◌then◌else◌, null, leb, leb→le, ◌==◌, arith,
}
use node_flow.Bytes.{Bytes}
use node_flow.Topology.{Host, RuntimePath, Contribution, Trace, Engine}
use node_flow.Topology.Metrics.{
  record_metric, remove_record, length-keep_latest, length-drop_sample,
}
use node_flow.Topology.Paths.{build_trace}
use node_flow.Topology.Aggregate.{
  UniquePath, unique_paths, desired_paths, withdraw, is_desired, withdraw_stale, is_less_useful,
  least_useful, remove_least_useful, open_path, contribute, is_counted, contribute_all, aggregate,
}
use node_flow.Topology.Sound.{Limits, IsTrace, IsPath, IsEngine}

module _ (h : Host) where
  has-either :
      (b : Bool) (x y : RuntimePath h) (ks : List Bytes)
      → has x.id ks ≡ true
      → has y.id ks ≡ true
      → has (if b then x else y).id ks ≡ true
  has-either true x y ks p q = p
  has-either false x y ks p q = q

module _ (h : Host) (limits : Limits) where
  -- The least useful path is one of the paths.
  least_useful-key :
      (id : Bytes) (p : RuntimePath h) (paths : List (Bytes × RuntimePath h))
      → Entries (IsPath h limits) ((id, p) ∷ paths)
      → has (least_useful h p paths).id (keys ((id, p) ∷ paths)) ≡ true
  unfolding least_useful
  least_useful-key id p [] (here, all) = ground (arith, here.named, bytes_eq_self id)
  least_useful-key id p ((j, q) ∷ paths) (here, (there, all)) =
      let next : has (least_useful h q paths).id (id ∷ j ∷ keys paths) ≡ true =
        ground (arith, least_useful-key j q paths (there, all)) in
      let same : has (least_useful h p paths).id (id ∷ j ∷ keys paths) ≡ true =
        ground (arith, least_useful-key id p paths (here, all)) in
      has-either h (is_less_useful h q p) (least_useful h q paths) (least_useful h p paths)
        (id ∷ j ∷ keys paths) next same

  length-remove_least_useful :
      (paths : List (Bytes × RuntimePath h))
      → Entries (IsPath h limits) paths
      → 1 ≤ length paths
      → length (remove_least_useful h paths) < length paths
  unfolding remove_least_useful
  length-remove_least_useful [] all some_path = absurd (omega arith)
  length-remove_least_useful ((id, p) ∷ paths) all some_path =
      length-remove_key (least_useful h p paths).id ((id, p) ∷ paths)
        (least_useful-key id p paths all)

  remove_least_useful-IsPath :
      (paths : List (Bytes × RuntimePath h))
      → Entries (IsPath h limits) paths
      → Entries (IsPath h limits) (remove_least_useful h paths)
  unfolding remove_least_useful
  remove_least_useful-IsPath [] all = tt
  remove_least_useful-IsPath ((id, p) ∷ paths) all =
      remove-Entries (IsPath h limits) (least_useful h p paths).id ((id, p) ∷ paths) all

  -- A path that is stored behind `open_path` stays within the limits.
  open_path-IsPath :
      (id : Bytes) (path : UniquePath) (v : RuntimePath h) (paths : List (Bytes × RuntimePath h))
      → 1 ≤ limits.paths
      → Entries (IsPath h limits) paths
      → length paths ≤ limits.paths
      → ((open_path h limits.paths id path paths).0.id ≡ id)
        × Entries (IsPath h limits) ((open_path h limits.paths id path paths).1)
        × (length (assign id v ((open_path h limits.paths id path paths).1)) ≤ limits.paths)
  unfolding open_path
  open_path-IsPath id path v paths room all bound = elim (Option-cases (find id paths)) [
    | inr (known, found) ↦
        rw (open_path, found)
          (
            (find-Entries (IsPath h limits) id known paths all found).named,
            all,
            omega (arith, length-assign_old id v known paths found),
          )
    | inl missing ↦ elim (Bool-cases (leb limits.paths (length paths))) [
      | inl full ↦
          rw (open_path, missing, full)
            (
              refl,
              remove_least_useful-IsPath paths all,
              omega (
                arith,
                leb→le limits.paths (length paths) full,
                length-remove_least_useful paths all
                    (omega (arith, leb→le limits.paths (length paths) full)),
                length-assign id v (remove_least_useful h paths),
              ),
            )
      | inr free ↦
          rw (open_path, missing, free) (refl, all, ground (arith, length-assign id v paths))
    ]
  ]

  contribute-IsEngine :
      (now : Contribution h) (id : Bytes) (path : UniquePath) (e : Engine h)
      → 1 ≤ limits.paths
      → IsEngine h limits e
      → IsEngine h limits (contribute h now id path e)
  unfolding contribute record_metric
  contribute-IsEngine now id path e room fine =
      let kept = open_path-IsPath id path _ e.paths room fine.paths fine.paths_le in
      record {
        trace_limit = fine.trace_limit;
        sample_limit = fine.sample_limit;
        path_limit = fine.path_limit;
        one_trace_each = fine.one_trace_each;
        traces = fine.traces;
        nodes = fine.nodes;
        edges = fine.edges;
        paths = rw fine.path_limit (
            assign-Entries (IsPath h limits) id _ _
              (record {
                named = kept.0;
                latencies_le = rw fine.sample_limit (length-keep_latest h limits.samples _);
              })
              (kept.1));
        paths_le = rw fine.path_limit (kept.2);
      }

  contribute_all-IsEngine :
      (now : Contribution h) (previous : List (Bytes × Contribution h))
      (desired : List (Bytes × UniquePath)) (e : Engine h)
      → 1 ≤ limits.paths
      → IsEngine h limits e
      → IsEngine h limits (contribute_all h now previous desired e)
  unfolding contribute_all
  contribute_all-IsEngine now previous [] e room fine = fine
  contribute_all-IsEngine now previous ((id, path) ∷ desired) e room fine =
      elim (Bool-cases (is_counted h now (find id previous) (find id e.paths))) [
        | inl counted ↦
            rw (contribute_all, counted) (contribute_all-IsEngine now previous desired e room fine)
        | inr fresh ↦
            rw (contribute_all, fresh)
              (contribute_all-IsEngine now previous desired (contribute h now id path e) room
                (contribute-IsEngine now id path e room fine))
      ]

  withdraw-IsEngine :
      (id : Bytes) (contribution : Contribution h) (e : Engine h)
      → IsEngine h limits e
      → IsEngine h limits (withdraw h id contribution e)
  unfolding withdraw remove_record
  withdraw-IsEngine id contribution e fine = elim (Option-cases (find id e.paths)) [
    | inl missing ↦ rw (withdraw, missing) fine
    | inr (path, found) ↦
        let metrics = remove_record h path.metrics contribution.duration contribution.failed in
        let sound = find-Entries (IsPath h limits) id path e.paths fine.paths found in
        let less : IsPath h limits id (record path { metrics = metrics }) = record {
          named = sound.named;
          latencies_le = omega (
            arith,
            length-drop_sample h contribution.duration path.metrics.latencies,
            sound.latencies_le,
          );
        } in
        let with_paths : (paths : List (Bytes × RuntimePath h))
            → Entries (IsPath h limits) paths
            → length paths ≤ limits.paths
            → IsEngine h limits (record e { paths = paths }) =
          λ paths all bound. record {
            trace_limit = fine.trace_limit;
            sample_limit = fine.sample_limit;
            path_limit = fine.path_limit;
            one_trace_each = fine.one_trace_each;
            traces = fine.traces;
            nodes = fine.nodes;
            edges = fine.edges;
            paths = all;
            paths_le = bound;
          } in
        elim (Bool-cases (metrics.count == 0)) [
          | inl unused ↦
              rw (withdraw, found, unused)
                (with_paths (remove id e.paths)
                  (remove-Entries (IsPath h limits) id e.paths fine.paths)
                  (omega (arith, length-remove id e.paths, fine.paths_le)))
          | inr used ↦
              rw (withdraw, found, used)
                (with_paths _ (assign-Entries (IsPath h limits) id _ e.paths less fine.paths) (
                  omega (
                    arith,
                    length-assign_old id (record path { metrics = metrics }) path e.paths found,
                    fine.paths_le,
                  )))
        ]
  ]

  withdraw_stale-IsEngine :
      (desired : List (Bytes × UniquePath)) (now : Contribution h)
      (previous : List (Bytes × Contribution h)) (e : Engine h)
      → IsEngine h limits e
      → IsEngine h limits (withdraw_stale h desired now previous e)
  unfolding withdraw_stale
  withdraw_stale-IsEngine desired now [] e fine = fine
  withdraw_stale-IsEngine desired now ((id, contribution) ∷ previous) e fine =
      elim (Bool-cases (is_desired h desired now id contribution)) [
        | inl same ↦ rw (withdraw_stale, same) (withdraw_stale-IsEngine desired now previous e fine)
        | inr stale ↦
            rw (withdraw_stale, stale)
              (withdraw_stale-IsEngine desired now previous (withdraw h id contribution e)
                (withdraw-IsEngine id contribution e fine))
      ]

  pub aggregate-IsEngine :
      (trace : Trace h) (e : Engine h)
      → 1 ≤ limits.paths
      → IsEngine h limits e
      → IsEngine h limits (aggregate h trace e)
  unfolding aggregate
  aggregate-IsEngine trace e room fine =
      let recent = build_trace h trace in
      let desired = desired_paths h (unique_paths h recent.roots []) [] in
      let now : Contribution h = record { duration = recent.duration; failed = recent.failed } in
      let weighed =
        contribute_all-IsEngine now trace.path_contributions desired
          (withdraw_stale h desired now trace.path_contributions e) room
          (withdraw_stale-IsEngine desired now trace.path_contributions e fine) in
      elim (Bool-cases (null recent.roots)) [
        | inl bare ↦ rw (aggregate, bare) fine
        | inr rooted ↦
            rw (aggregate, rooted)
              (record {
                trace_limit = weighed.trace_limit;
                sample_limit = weighed.sample_limit;
                path_limit = weighed.path_limit;
                one_trace_each = assign-AreNamed trace.trace_id _ _ weighed.one_trace_each;
                traces = assign-Entries (IsTrace h limits) trace.trace_id _ _ refl weighed.traces;
                nodes = weighed.nodes;
                edges = weighed.edges;
                paths = weighed.paths;
                paths_le = weighed.paths_le;
              })
      ]
