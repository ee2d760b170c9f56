-- ===== src/Topology/State/RoundTrip.antt =====
-- runtime/go/internal/topology/state.go: theorems on `persistedState` and `restoreState`.
use node_flow.Prelude.{
  ℕ, ◌≤◌, ◌≡◌, refl, sym, ap, ◌∙◌, Bool, false, ◌||◌, List, [], ◌∷◌, null, bytes_eq, bytes_eq_self,
  bytes_eq_iff, has, find, AreNamed, Entries, map-Entries, keys, find-keys-none, ok, arith,
}
use node_flow.Bytes.{Bytes}
use node_flow.Topology.{Host, Span, Node, Edge, RuntimePath, Trace, Engine}
use node_flow.Topology.Batch.{Options, new, or_default, add_name}
use node_flow.Topology.State.{
  invalid_node, invalid_edge, invalid_path, invalid_trace, invalid_span, sort_strings, add_all,
  persist_node, restore_node, persist_edge, restore_edge, persist_path, restore_path, ordered_spans,
  persist_trace, span_ids, restore_trace, persisted_state, options_of, restore_state,
}
use node_flow.Topology.State.Sorted.{
  sort_entries, find-sort_entries, values, restore_all-values, restore_all-persist_all,
  has-sort_strings, has-add_all,
}

module _ (h : Host) where
  -- The spans of a trace stand in the order in which they came, each under its identifier.
  pub record IsWhole (t : Trace h) : Type 0 where
    pub in_order : keys t.spans ≡ t.span_order
    pub one_each : AreNamed t.spans
    pub spans : Entries (λ k s. (s.span_id ≡ k) × (null k ≡ false)) t.spans

  abbrev pub IsStoredNode : Bytes → Node h → Type 0
  IsStoredNode k n = (n.id ≡ k) × (null k ≡ false)

  abbrev pub IsStoredEdge : Bytes → Edge h → Type 0
  IsStoredEdge k d = (d.id ≡ k) × (null k ≡ false)

  abbrev pub IsStoredPath : Bytes → RuntimePath h → Type 0
  IsStoredPath k p = (p.id ≡ k) × (null k ≡ false)

  abbrev pub IsStoredTrace : Bytes → Trace h → Type 0
  IsStoredTrace k t = (t.trace_id ≡ k) × (null k ≡ false) × IsWhole t

  -- Each map has one value to a key, which is the value's identifier and not empty.
  pub record IsStored (e : Engine h) : Type 0 where
    pub one_node : AreNamed e.nodes
    pub nodes : Entries IsStoredNode e.nodes
    pub one_edge : AreNamed e.edges
    pub edges : Entries IsStoredEdge e.edges
    pub one_path : AreNamed e.paths
    pub paths : Entries IsStoredPath e.paths
    pub one_trace : AreNamed e.traces
    pub traces : Entries IsStoredTrace e.traces
    pub version : null e.node_version ≡ false
    pub traces_positive : 1 ≤ e.max_recent_traces
    pub samples_positive : 1 ≤ e.max_latency_samples
    pub paths_positive : 1 ≤ e.max_runtime_paths

  -- Two engines that answer alike: the maps have the same values and the sets the same members. The
  -- application's name of the options is a member at least.
  pub record IsSame (options : Options) (e f : Engine h) : Type 0 where
    pub nodes : (k : Bytes) → find k f.nodes ≡ find k e.nodes
    pub edges : (k : Bytes) → find k f.edges ≡ find k e.edges
    pub paths : (k : Bytes) → find k f.paths ≡ find k e.paths
    pub traces : (k : Bytes) → find k f.traces ≡ find k e.traces
    pub seen : (k : Bytes) → has k f.seen_span_ids ≡ has k e.seen_span_ids
    pub seen_edges : (k : Bytes) → has k f.seen_edge_span_ids ≡ has k e.seen_edge_span_ids
    pub names :
        (k : Bytes)
        → has k f.application_names ≡ (
            has k e.application_names
            || has k (add_name h (h.trim_space options.application_name) []))
    pub version : f.node_version ≡ e.node_version
    pub clock : f.clock ≡ e.clock
    pub revision : f.revision ≡ e.revision
    pub runtime : f.runtime ≡ e.runtime
    pub active_nodes : f.active_nodes ≡ e.active_nodes
    pub active_edges : f.active_edges ≡ e.active_edges
    pub max_recent_traces : f.max_recent_traces ≡ e.max_recent_traces
    pub max_latency_samples : f.max_latency_samples ≡ e.max_latency_samples
    pub max_runtime_paths : f.max_runtime_paths ≡ e.max_runtime_paths

  ordered_spans-skip :
      (k : Bytes) (s : Span h) (m : List (Bytes × Span h)) (ids : List Bytes)
      → has k ids ≡ false
      → ordered_spans h ((k, s) ∷ m) ids ≡ ordered_spans h m ids
  unfolding ordered_spans find
  ordered_spans-skip k s m [] apart = refl
  ordered_spans-skip k s m (id ∷ ids) apart =
      let other : bytes_eq k id ≡ false = ground (arith, bytes_eq_iff k id, bytes_eq_iff id k) in
      rw (ordered_spans, find, other, ordered_spans-skip k s m ids (ground arith)) refl

  ordered_spans-keys :
      (m : List (Bytes × Span h))
      → AreNamed m
      → ordered_spans h m (keys m)
        ≡ values invalid_span (λ (s : Span h). s.span_id) (λ s. s) (λ s. ok s) m
  unfolding ordered_spans find
  ordered_spans-keys [] d = refl
  ordered_spans-keys ((k, s) ∷ m) (apart, d) =
      rw
        (
          ordered_spans,
          find,
          bytes_eq_self k,
          ordered_spans-skip k s m (keys m) (find-keys-none k m apart),
          ordered_spans-keys m d,
        )
        refl

  span_ids-values :
      (m : List (Bytes × Span h))
      → Entries (λ k s. (s.span_id ≡ k) × (null k ≡ false)) m
      → span_ids h (values invalid_span (λ (s : Span h). s.span_id) (λ s. s) (λ s. ok s) m) ≡ keys m
  span_ids-values [] all = refl
  span_ids-values ((k, s) ∷ m) ((named, filled), all) = rw (named, span_ids-values m all) refl

  -- A trace is read back.
  pub restore_trace-persist_trace :
      (t : Trace h) → IsWhole t → restore_trace h (persist_trace h t) ≡ ok t
  unfolding restore_trace persist_trace
  restore_trace-persist_trace t whole =
      let ordered : ordered_spans h t.spans t.span_order
          ≡ values invalid_span (λ (s : Span h). s.span_id) (λ s. s) (λ s. ok s) t.spans =
        ap (λ ids. ordered_spans h t.spans ids) (sym whole.in_order)
        ∙ ordered_spans-keys t.spans whole.one_each in
      let read =
        restore_all-values invalid_span (λ (s : Span h). s.span_id) (λ s. s) (λ s. ok s) [] t.spans
          whole.one_each
          (map-Entries _ _ t.spans (λ k s p. record { named = p.0; filled = p.1; back = refl })
            whole.spans) in
      rw (ordered, read, span_ids-values t.spans whole.spans, whole.in_order) refl

  -- The engine that comes back, its maps sorted.
  unfoldable restored : Engine h → Options → Engine h
  restored e options = record (new h (options_of h (persisted_state h e) options)) {
    nodes = sort_entries e.nodes;
    edges = sort_entries e.edges;
    paths = sort_entries e.paths;
    traces = sort_entries e.traces;
    seen_span_ids = add_all (sort_strings e.seen_span_ids) [];
    seen_edge_span_ids = add_all (sort_strings e.seen_edge_span_ids) [];
    application_names =
        add_all (sort_strings e.application_names)
          (add_name h (h.trim_space options.application_name) []);
    clock = e.clock;
    revision = e.revision;
    runtime = e.runtime;
    active_nodes = e.active_nodes;
    active_edges = e.active_edges;
  }

  restore_state-restored :
      (e : Engine h) (options : Options)
      → IsStored e
      → restore_state h (persisted_state h e) options ≡ ok (restored e options)
  unfolding restore_state persisted_state options_of new restored persist_trace
  restore_state-restored e options stored =
      let nodes =
        restore_all-persist_all invalid_node (λ n. n.id) (persist_node h)
          (λ n. ok (restore_node h n)) e.nodes stored.one_node
          (map-Entries IsStoredNode _ e.nodes
            (λ k n p. record { named = p.0; filled = p.1; back = refl }) stored.nodes) in
      let edges =
        restore_all-persist_all invalid_edge (λ d. d.id) (persist_edge h)
          (λ d. ok (restore_edge h d)) e.edges stored.one_edge
          (map-Entries IsStoredEdge _ e.edges
            (λ k n p. record { named = p.0; filled = p.1; back = refl }) stored.edges) in
      let paths =
        restore_all-persist_all invalid_path (λ p. p.id) (persist_path h)
          (λ p. ok (restore_path h p)) e.paths stored.one_path
          (map-Entries IsStoredPath _ e.paths
            (λ k n p. record { named = p.0; filled = p.1; back = refl }) stored.paths) in
      let traces =
        restore_all-persist_all invalid_trace (λ t. t.trace_id) (persist_trace h) (restore_trace h)
          e.traces stored.one_trace
          (map-Entries IsStoredTrace _ e.traces
            (λ k t p. record {
              named = p.0;
              filled = p.1;
              back = restore_trace-persist_trace t (p.2);
            })
            stored.traces) in
      rw (nodes, edges, paths, traces) refl

  or_default-over : (d o n : ℕ) → 1 ≤ n → or_default d (or_default o n) ≡ n
  or_default-over d o n e = ground arith

  or_false : (b : Bool) → (b || false) ≡ b
  or_false b = ground arith

  has-read_set :
      (k : Bytes) (ids set : List Bytes)
      → has k (add_all (sort_strings ids) set) ≡ (has k ids || has k set)
  has-read_set k ids set = rw (has-add_all k (sort_strings ids) set, has-sort_strings k ids) refl

  restored-IsSame :
      (e : Engine h) (options : Options) → IsStored e → IsSame options e (restored e options)
  unfolding restored new options_of persisted_state
  restored-IsSame e options stored = record {
    nodes = λ k. find-sort_entries k e.nodes stored.one_node;
    edges = λ k. find-sort_entries k e.edges stored.one_edge;
    paths = λ k. find-sort_entries k e.paths stored.one_path;
    traces = λ k. find-sort_entries k e.traces stored.one_trace;
    seen = λ k. has-read_set k e.seen_span_ids [] ∙ or_false (has k e.seen_span_ids);
    seen_edges =
        λ k. has-read_set k e.seen_edge_span_ids [] ∙ or_false (has k e.seen_edge_span_ids);
    names = λ k. has-read_set k e.application_names _;
    version = rw (stored.version, stored.version) refl;
    clock = refl;
    revision = refl;
    runtime = refl;
    active_nodes = refl;
    active_edges = refl;
    max_recent_traces = or_default-over 50 options.max_recent_traces _ stored.traces_positive;
    max_latency_samples =
        or_default-over 1000 options.max_latency_samples _ stored.samples_positive;
    max_runtime_paths = or_default-over 1000 options.max_runtime_paths _ stored.paths_positive;
  }

  -- An engine is read back from its checkpoint, whatever the options: every map has the same value to
  -- each key, every set the same members, save that the name in the options joins the applications,
  -- and all else is equal. Its maps have one value to a key, which is the value's identifier and not
  -- empty, the spans of its traces stand in their order, its version is not empty, and its limits are
  -- positive.
  pub restore_state-persisted_state :
      (e : Engine h) (options : Options)
      → IsStored e
      → (f : Engine h) × (restore_state h (persisted_state h e) options ≡ ok f) × IsSame options e f
  restore_state-persisted_state e options stored = (
    restored e options,
    restore_state-restored e options stored,
    restored-IsSame e options stored,
  )
