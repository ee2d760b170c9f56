-- ===== src/Topology/State/ReachedPaths.antt =====
-- runtime/go/internal/topology/engine.go: lemmas on `aggregateRuntimePaths`, `trimTraces` and what a
-- checkpoint can hold.
use node_flow.Prelude.{
  ℕ, ◌≡◌, refl, inl, inr, false, List, [], ◌∷◌, length, null, find, AreNamed, assign-AreNamed,
  remove-AreNamed, Entries, find-Entries, assign-Entries, remove-Entries, Bool-cases, Option-cases,
  leb, ◌==◌,
}
use node_flow.Bytes.{Bytes}
use node_flow.Topology.{Host, RuntimePath, Contribution, Trace, Engine}
use node_flow.Topology.Identity.{stable_hash, stable_path_id}
use node_flow.Topology.Metrics.{remove_record}
use node_flow.Topology.Paths.{build_trace}
use node_flow.Topology.Aggregate.{
  UniquePath, unique_paths, desired_paths, withdraw, is_desired, withdraw_stale, least_useful,
  remove_least_useful, open_path, contribute, is_counted, contribute_all, aggregate,
}
use node_flow.Topology.Trim.{forget_spans, forget_traces, trim_traces}
use node_flow.Topology.State.RoundTrip.{IsStoredPath, IsStoredTrace, IsStored}
use node_flow.Topology.State.Filed.{stored_maps, kept_nodes, kept_edges, kept_paths, kept_traces}

module _ (h : Host) where
  abbrev IsFilled : Bytes → UniquePath → Type 0
  IsFilled id path = null id ≡ false

  path_id-filled :
      (entrypoint : Bytes) (nodes : List Bytes) → null (stable_path_id h entrypoint nodes) ≡ false
  unfolding stable_path_id stable_hash
  path_id-filled entrypoint nodes = refl

  desired_paths-IsFilled :
      (unique desired : List (Bytes × UniquePath))
      → Entries IsFilled desired
      → Entries IsFilled (desired_paths h unique desired)
  unfolding desired_paths
  desired_paths-IsFilled [] desired all = all
  desired_paths-IsFilled ((key, path) ∷ unique) desired all = desired_paths-IsFilled unique _ (
      assign-Entries IsFilled (stable_path_id h path.entrypoint path.nodes) path desired
        (path_id-filled path.entrypoint path.nodes) all)

  remove_least_useful-stored :
      (paths : List (Bytes × RuntimePath h))
      → AreNamed paths × Entries (IsStoredPath h) paths
      → AreNamed (remove_least_useful h paths)
        × Entries (IsStoredPath h) (remove_least_useful h paths)
  unfolding remove_least_useful
  remove_least_useful-stored [] stored = stored
  remove_least_useful-stored ((id, p) ∷ paths) stored = (
    remove-AreNamed ((least_useful h p paths).id) ((id, p) ∷ paths) (stored.0),
    remove-Entries (IsStoredPath h) ((least_useful h p paths).id) ((id, p) ∷ paths) (stored.1),
  )

  open_path-stored :
      (limit : ℕ) (id : Bytes) (path : UniquePath) (paths : List (Bytes × RuntimePath h))
      → null id ≡ false
      → AreNamed paths × Entries (IsStoredPath h) paths
      → IsStoredPath h id ((open_path h limit id path paths).0)
        × AreNamed ((open_path h limit id path paths).1)
        × Entries (IsStoredPath h) ((open_path h limit id path paths).1)
  unfolding open_path
  open_path-stored limit id path paths filled stored = elim (Option-cases (find id paths)) [
    | inr (known, found) ↦
        rw (open_path, found)
          (find-Entries (IsStoredPath h) id known paths (stored.1) found, stored.0, stored.1)
    | inl missing ↦ elim (Bool-cases (leb limit (length paths))) [
      | inl full ↦
          let less = remove_least_useful-stored paths stored in
          rw (open_path, missing, full) ((refl, filled), less.0, less.1)
      | inr free ↦ rw (open_path, missing, free) ((refl, filled), stored.0, stored.1)
    ]
  ]

  contribute-IsStored :
      (now : Contribution h) (id : Bytes) (path : UniquePath) (e : Engine h)
      → null id ≡ false
      → IsStored h e
      → IsStored h (contribute h now id path e)
  unfolding contribute
  contribute-IsStored now id path e filled stored =
      let kept =
        open_path-stored e.max_runtime_paths id path e.paths filled (kept_paths h e stored) in
      stored_maps h e _ _ _ _ _ _ _ _ _ _ _ _ stored (kept_nodes h e stored) (kept_edges h e stored)
        (assign-AreNamed id _ _ (kept.1), assign-Entries (IsStoredPath h) id _ _ (kept.0) (kept.2))
        (kept_traces h e stored)

  contribute_all-IsStored :
      (now : Contribution h) (previous : List (Bytes × Contribution h))
      (desired : List (Bytes × UniquePath)) (e : Engine h)
      → Entries IsFilled desired
      → IsStored h e
      → IsStored h (contribute_all h now previous desired e)
  unfolding contribute_all
  contribute_all-IsStored now previous [] e all stored = stored
  contribute_all-IsStored now previous ((id, path) ∷ desired) e (filled, all) stored =
      elim (Bool-cases (is_counted h now (find id previous) (find id e.paths))) [
        | inl counted ↦
            rw (contribute_all, counted) (contribute_all-IsStored now previous desired e all stored)
        | inr fresh ↦
            rw (contribute_all, fresh)
              (contribute_all-IsStored now previous desired (contribute h now id path e) all
                (contribute-IsStored now id path e filled stored))
      ]

  withdraw-IsStored :
      (id : Bytes) (contribution : Contribution h) (e : Engine h)
      → IsStored h e
      → IsStored h (withdraw h id contribution e)
  unfolding withdraw remove_record
  withdraw-IsStored id contribution e stored = elim (Option-cases (find id e.paths)) [
    | inl missing ↦ rw (withdraw, missing) stored
    | inr (path, found) ↦
        let metrics = remove_record h path.metrics contribution.duration contribution.failed in
        let sound = find-Entries (IsStoredPath h) id path e.paths stored.paths found in
        elim (Bool-cases (metrics.count == 0)) [
          | inl unused ↦
              rw (withdraw, found, unused)
                (stored_maps h e _ _ _ _ _ _ _ _ _ _ _ _ stored (kept_nodes h e stored)
                  (kept_edges h e stored)
                  (
                    remove-AreNamed id e.paths stored.one_path,
                    remove-Entries (IsStoredPath h) id e.paths stored.paths,
                  )
                  (kept_traces h e stored))
          | inr used ↦
              rw (withdraw, found, used)
                (stored_maps h e _ _ _ _ _ _ _ _ _ _ _ _ stored (kept_nodes h e stored)
                  (kept_edges h e stored)
                  (
                    assign-AreNamed id _ e.paths stored.one_path,
                    assign-Entries (IsStoredPath h) id _ e.paths sound stored.paths,
                  )
                  (kept_traces h e stored))
        ]
  ]

  withdraw_stale-IsStored :
      (desired : List (Bytes × UniquePath)) (now : Contribution h)
      (previous : List (Bytes × Contribution h)) (e : Engine h)
      → IsStored h e
      → IsStored h (withdraw_stale h desired now previous e)
  unfolding withdraw_stale
  withdraw_stale-IsStored desired now [] e stored = stored
  withdraw_stale-IsStored desired now ((id, contribution) ∷ previous) e stored =
      elim (Bool-cases (is_desired h desired now id contribution)) [
        | inl same ↦
            rw (withdraw_stale, same) (withdraw_stale-IsStored desired now previous e stored)
        | inr stale ↦
            rw (withdraw_stale, stale)
              (withdraw_stale-IsStored desired now previous (withdraw h id contribution e)
                (withdraw-IsStored id contribution e stored))
      ]

  -- The trace that is aggregated is one of the engine.
  pub aggregate-IsStored :
      (trace : Trace h) (e : Engine h)
      → IsStoredTrace h trace.trace_id trace
      → IsStored h e
      → IsStored h (aggregate h trace e)
  unfolding aggregate
  aggregate-IsStored trace e sound stored =
      let recent = build_trace h trace in
      let desired = desired_paths h (unique_paths h recent.roots []) [] in
      let now : Contribution h = record { duration = recent.duration; failed = recent.failed } in
      let weighed =
        contribute_all-IsStored now trace.path_contributions desired
          (withdraw_stale h desired now trace.path_contributions e)
          (desired_paths-IsFilled (unique_paths h recent.roots []) [] tt)
          (withdraw_stale-IsStored desired now trace.path_contributions e stored) in
      let whole = sound.2 in
      elim (Bool-cases (null recent.roots)) [
        | inl bare ↦ rw (aggregate, bare) stored
        | inr rooted ↦
            rw (aggregate, rooted)
              (stored_maps h _ _ _ _ _ _ _ _ _ _ _ _ _ weighed (kept_nodes h _ weighed)
                (kept_edges h _ weighed) (kept_paths h _ weighed)
                (
                  assign-AreNamed trace.trace_id _ _ weighed.one_trace,
                  assign-Entries (IsStoredTrace h) trace.trace_id _ _
                      (
                        refl,
                        sound.1,
                        record {
                          in_order = whole.in_order;
                          one_each = whole.one_each;
                          spans = whole.spans;
                        },
                      )
                      weighed.traces,
                ))
      ]

  forget_spans-IsStored :
      (id : Bytes) (ids : List Bytes) (e : Engine h)
      → IsStored h e
      → IsStored h (forget_spans h id ids e)
  unfolding forget_spans
  forget_spans-IsStored id [] e stored = stored
  forget_spans-IsStored id (j ∷ ids) e stored = forget_spans-IsStored id ids _ (
      stored_maps h e _ _ _ _ _ _ _ _ _ _ _ _ stored (kept_nodes h e stored) (kept_edges h e stored)
        (kept_paths h e stored) (kept_traces h e stored))

  forget_traces-IsStored :
      (ts : List (Trace h)) (e : Engine h) → IsStored h e → IsStored h (forget_traces h ts e)
  unfolding forget_traces
  forget_traces-IsStored [] e stored = stored
  forget_traces-IsStored (t ∷ ts) e stored = forget_traces-IsStored ts _ (
      forget_spans-IsStored t.trace_id t.span_order _ (
        stored_maps h e _ _ _ _ _ _ _ _ _ _ _ _ stored (kept_nodes h e stored)
          (kept_edges h e stored) (kept_paths h e stored)
          (
            remove-AreNamed t.trace_id e.traces stored.one_trace,
            remove-Entries (IsStoredTrace h) t.trace_id e.traces stored.traces,
          )))

  pub trim_traces-IsStored : (e : Engine h) → IsStored h e → IsStored h (trim_traces h e)
  unfolding trim_traces
  trim_traces-IsStored e stored = forget_traces-IsStored _ e stored
