-- ===== src/Topology/Snapshot/Closed.antt =====
-- runtime/go/internal/topology/engine.go: theorems on the live and the architecture snapshot.
use node_flow.Prelude.{
  ◌≤◌, ◌≡◌, refl, sym, ◌∙◌, true, false, ◌||◌, inl, inr, List, [], ◌∷◌, All, bytes_eq, has, Entries,
  map-Entries, keys, Bool-cases, arith,
}
use node_flow.Bytes.{Bytes}
use node_flow.Topology.{Host, Engine}
use node_flow.Topology.Batch.{Options, new}
use node_flow.Topology.State.{string_before, insert_sorted, persist_all}
use node_flow.Topology.Sound.{Limits, IsNode, IsEdge, IsEngine}
use node_flow.Topology.Whole.{Call, limits_of, answer_all, answer_all-IsEngine}
use node_flow.Topology.Snapshot.Stable.{
  StableNode, StableEdge, stable_node, stable_edge, create_snapshot,
}
use node_flow.Topology.Snapshot.{LiveNode, LiveEdge, summarize, live_node, live_edge, live_snapshot}

module _ {W : Type 0} (sort_by : W → Bytes) where
  abbrev pub ids_by : (W → Bytes) → List W → List Bytes
  ids_by id_of [] = []
  ids_by id_of (w ∷ ws) = id_of w ∷ ids_by id_of ws

  has-insert_by :
      (id_of : W → Bytes) (k : Bytes) (w : W) (ws : List W)
      → has k (ids_by id_of (insert_sorted sort_by w ws))
        ≡ (bytes_eq (id_of w) k || has k (ids_by id_of ws))
  unfolding insert_sorted
  has-insert_by id_of k w [] = refl
  has-insert_by id_of k w (v ∷ ws) = elim (Bool-cases (string_before (sort_by v) (sort_by w))) [
    | inr first ↦ rw (insert_sorted, first) refl
    | inl later ↦ rw (insert_sorted, later) (ground (arith, has-insert_by id_of k w ws))
  ]

  insert_sorted-All :
      (P : W → Type 0) (w : W) (ws : List W) → P w → All P ws → All P (insert_sorted sort_by w ws)
  unfolding insert_sorted
  insert_sorted-All P w [] p all = (p, tt)
  insert_sorted-All P w (v ∷ ws) p (q, all) =
      elim (Bool-cases (string_before (sort_by v) (sort_by w))) [
        | inr first ↦ rw (insert_sorted, first) (p, (q, all))
        | inl later ↦ rw (insert_sorted, later) (q, insert_sorted-All P w ws p all)
      ]

module _ {V W : Type 0} (sort_by : W → Bytes) (to : V → W) where
  persist_all-All :
      (P : W → Type 0) (m : List (Bytes × V))
      → Entries (λ k v. P (to v)) m
      → All P (persist_all sort_by to m)
  unfolding persist_all
  persist_all-All P [] all = tt
  persist_all-All P ((k, v) ∷ m) (p, all) =
      insert_sorted-All sort_by P (to v) (persist_all sort_by to m) p (persist_all-All P m all)

  has-persist_all :
      (id_of : W → Bytes) (k : Bytes) (m : List (Bytes × V))
      → Entries (λ j v. id_of (to v) ≡ j) m
      → has k (ids_by sort_by id_of (persist_all sort_by to m)) ≡ has k (keys m)
  unfolding persist_all
  has-persist_all id_of k [] all = refl
  has-persist_all id_of k ((j, v) ∷ m) (named, all) =
      rw
        (
          persist_all,
          has-insert_by sort_by id_of k (to v) (persist_all sort_by to m),
          named,
          has-persist_all id_of k m all,
        )
        refl

module _ (h : Host) where
  abbrev pub stable_ids : List (StableNode h) → List Bytes
  stable_ids nodes = ids_by (λ n. n.id) (λ n. n.id) nodes

  abbrev pub node_ids : List (LiveNode h) → List Bytes
  node_ids nodes = ids_by (λ n. n.name) (λ n. n.id) nodes

  abbrev pub stable_edge_ids : List (StableEdge h) → List Bytes
  stable_edge_ids edges = ids_by (λ d. d.id) (λ d. d.id) edges

  abbrev pub edge_ids : List (LiveEdge h) → List Bytes
  edge_ids edges = ids_by (λ d. d.id) (λ d. d.id) edges

  -- The ends of an edge are two different nodes of the snapshot, and its errors are among its calls.
  pub record IsClosed (nodes : List (LiveNode h)) (d : LiveEdge h) : Type 0 where
    pub apart : bytes_eq d.source d.target ≡ false
    pub source_shown : has d.source (node_ids nodes) ≡ true
    pub target_shown : has d.target (node_ids nodes) ≡ true
    pub errors_le : d.summary.error_count ≤ d.summary.request_count

  live_snapshot-IsClosed :
      (limits : Limits) (e : Engine h)
      → IsEngine h limits e
      → All (IsClosed ((live_snapshot h e).nodes)) ((live_snapshot h e).edges)
        × All (λ n. n.summary.error_count ≤ n.summary.request_count) ((live_snapshot h e).nodes)
        × ((k : Bytes) → has k (node_ids ((live_snapshot h e).nodes)) ≡ has k (keys e.nodes))
  unfolding live_snapshot live_node live_edge summarize
  live_snapshot-IsClosed limits e fine =
      let shown : (k : Bytes)
          → has k (node_ids ((live_snapshot h e).nodes)) ≡ has k (keys e.nodes) =
        λ k.
          has-persist_all (λ n. n.name) (live_node h) (λ n. n.id) k e.nodes
            (map-Entries (IsNode h limits) _ e.nodes (λ j n sound. sound.named) fine.nodes) in
      (
        persist_all-All (λ d. d.id) (live_edge h) (IsClosed ((live_snapshot h e).nodes)) e.edges
            (map-Entries (IsEdge h limits (keys e.nodes)) _ e.edges
              (λ j d sound. record {
                apart = sound.apart;
                source_shown = shown d.source ∙ sound.source_known;
                target_shown = shown d.target ∙ sound.target_known;
                errors_le = sound.metrics.errors_le;
              })
              fine.edges),
        persist_all-All (λ n. n.name) (live_node h) _ e.nodes
            (map-Entries (IsNode h limits) _ e.nodes (λ j n sound. sound.metrics.errors_le)
              fine.nodes),
        shown,
      )

  -- The live snapshot of an engine made with any options, behind any sequence of batches, runtime
  -- metrics and registrations: each edge joins two different nodes of the snapshot and has no more
  -- errors than calls, no node has more errors than calls, and the nodes are those of the engine.
  pub live_snapshot-answer_all :
      (options : Options) (cs : List (Call h))
      → All
          (IsClosed ((live_snapshot h (answer_all h cs (new h options))).nodes))
          ((live_snapshot h (answer_all h cs (new h options))).edges)
        × All
            (λ n. n.summary.error_count ≤ n.summary.request_count)
            ((live_snapshot h (answer_all h cs (new h options))).nodes)
        × ((k : Bytes)
            → has k (node_ids ((live_snapshot h (answer_all h cs (new h options))).nodes))
              ≡ has k (keys ((answer_all h cs (new h options)).nodes)))
  live_snapshot-answer_all options cs =
      live_snapshot-IsClosed (limits_of options) (answer_all h cs (new h options))
        ((answer_all-IsEngine h options cs).0)

  -- The architecture snapshot of an engine made with any options, behind any sequence of batches,
  -- runtime metrics and registrations, shows nodes and edges under the identifiers that its live
  -- snapshot shows, and the same paths.
  pub create_snapshot-answer_all :
      (options : Options) (cs : List (Call h)) (k : Bytes)
      → (has k (stable_ids ((create_snapshot h (answer_all h cs (new h options))).nodes))
          ≡ has k (node_ids ((live_snapshot h (answer_all h cs (new h options))).nodes)))
        × (has k (stable_edge_ids ((create_snapshot h (answer_all h cs (new h options))).edges))
            ≡ has k (edge_ids ((live_snapshot h (answer_all h cs (new h options))).edges)))
        × ((create_snapshot h (answer_all h cs (new h options))).paths
            ≡ (live_snapshot h (answer_all h cs (new h options))).paths)
  unfolding create_snapshot stable_node stable_edge live_snapshot live_edge
  create_snapshot-answer_all options cs k =
      let e = answer_all h cs (new h options) in
      let fine = (answer_all-IsEngine h options cs).0 in
      (
        has-persist_all (λ n. n.id) (stable_node h) (λ n. n.id) k e.nodes
              (map-Entries (IsNode h (limits_of options)) _ e.nodes (λ j n sound. sound.named)
                (fine.nodes))
            ∙ sym ((live_snapshot-IsClosed (limits_of options) e fine).2 k),
        has-persist_all (λ d. d.id) (stable_edge h) (λ d. d.id) k e.edges
              (map-Entries (IsEdge h (limits_of options) (keys e.nodes)) _ e.edges
                (λ j d sound. sound.named) (fine.edges))
            ∙ sym (
                has-persist_all (λ d. d.id) (live_edge h) (λ d. d.id) k e.edges
                  (map-Entries (IsEdge h (limits_of options) (keys e.nodes)) _ e.edges
                    (λ j d sound. sound.named) (fine.edges))),
        refl,
      )
