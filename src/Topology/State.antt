-- ===== src/Topology/State.antt =====
-- runtime/go/internal/topology/state.go: the checkpoint of the engine. `Files` holds encoding/json and
-- CRC-32; what the file system answers is the argument `io` of an operation.

mod Data
pub use Data.*
mod Sorted
pub mod RoundTrip
pub mod Saved
pub mod Filed
mod Reached
mod ReachedPaths
pub mod Recovered
mod Examples
use node_flow.Prelude.{
  ℕ, Bool, true, false, ◌||◌, Option, none, some, List, [], ◌∷◌, null, find, assign, ltb, ◌==◌,
  if◌then◌else◌, Result, ok, err, ◌>>=◌,
}
use node_flow.Bytes.{Bytes}
use node_flow.Topology.{
  Host, Span, Metric, Node, Edge, RuntimePath, Contribution, Trace, RuntimeMetrics, Engine,
}
use node_flow.Topology.Paths.{span_or_zero}
use node_flow.Topology.Batch.{Options, new, or_default}

-- Go's order of strings.
unfoldable pub string_before : Bytes → Bytes → Bool
string_before [] [] = false
string_before [] (y ∷ ys) = true
string_before (x ∷ xs) [] = false
string_before (x ∷ xs) (y ∷ ys) = let rest = string_before xs ys in if x == y then rest else ltb x y

-- `sort.Slice` by a string.
module _ {V : Type 0} (id_of : V → Bytes) where
  unfoldable pub insert_sorted : V → List V → List V
  insert_sorted v [] = v ∷ []
  insert_sorted v (w ∷ ws) =
      let later = insert_sorted v ws in
      if string_before (id_of w) (id_of v) then w ∷ later else v ∷ w ∷ ws

-- The values of a map, each as `to` persists it, sorted.
module _ {V W : Type 0} (id_of : W → Bytes) (to : V → W) where
  unfoldable pub persist_all : List (Bytes × V) → List W
  persist_all [] = []
  persist_all ((k, v) ∷ m) = insert_sorted id_of (to v) (persist_all m)

unfoldable pub sort_strings : List Bytes → List Bytes
sort_strings [] = []
sort_strings (s ∷ ss) = insert_sorted (λ t. t) s (sort_strings ss)

abbrev pub is_some {ℓ} : {V : Type ℓ} → Option V → Bool
is_some none = false
is_some (some v) = true

-- A loop of `restoreState`: no identifier is empty or comes twice.
module _ {V W : Type 0} (bad : Bytes → RestoreError) (id_of : W → Bytes)
    (from : W → Result RestoreError V) where
  unfoldable pub restore_all : List W → List (Bytes × V) → Result RestoreError (List (Bytes × V))
  restore_all [] m = ok m
  restore_all (w ∷ ws) m = elim (null (id_of w) || is_some (find (id_of w) m)) [
    | true ↦ err (bad (id_of w))
    | false ↦ elim (from w) [ err e ↦ err e | ok v ↦ restore_all ws (assign (id_of w) v m) ]
  ]

abbrev pub add_all : List Bytes → List Bytes → List Bytes
add_all [] set = set
add_all (id ∷ ids) set = add_all ids (id ∷ set)

module _ (h : Host) where
  abbrev pub persist_metric : Metric h → PersistedMetric h
  persist_metric m = record {
    count = m.count;
    errors = m.errors;
    total_latency = m.total_latency;
    latencies = m.latencies;
  }

  abbrev pub restore_metric : PersistedMetric h → Metric h
  restore_metric m = record {
    count = m.count;
    errors = m.errors;
    total_latency = m.total_latency;
    latencies = m.latencies;
  }

  abbrev pub persist_node : Node h → PersistedNode h
  persist_node n = record {
    id = n.id;
    name = n.name;
    kind = n.kind;
    framework = n.framework;
    operation = n.operation;
    metrics = persist_metric n.metrics;
  }

  abbrev pub restore_node : PersistedNode h → Node h
  restore_node n = record {
    id = n.id;
    name = n.name;
    kind = n.kind;
    framework = n.framework;
    operation = n.operation;
    metrics = restore_metric n.metrics;
  }

  abbrev pub persist_edge : Edge h → PersistedEdge h
  persist_edge e = record {
    id = e.id;
    source = e.source;
    target = e.target;
    metrics = persist_metric e.metrics;
  }

  abbrev pub restore_edge : PersistedEdge h → Edge h
  restore_edge e = record {
    id = e.id;
    source = e.source;
    target = e.target;
    metrics = restore_metric e.metrics;
  }

  abbrev pub persist_path : RuntimePath h → PersistedPath h
  persist_path p = record {
    id = p.id;
    entrypoint = p.entrypoint;
    nodes = p.nodes;
    metrics = persist_metric p.metrics;
    last_updated_at = p.last_updated_at;
  }

  abbrev pub restore_path : PersistedPath h → RuntimePath h
  restore_path p = record {
    id = p.id;
    entrypoint = p.entrypoint;
    nodes = p.nodes;
    metrics = restore_metric p.metrics;
    last_updated_at = p.last_updated_at;
  }

  -- The spans of a trace, in their order.
  unfoldable pub ordered_spans : List (Bytes × Span h) → List Bytes → List (Span h)
  ordered_spans spans [] = []
  ordered_spans spans (id ∷ ids) = span_or_zero h (find id spans) ∷ ordered_spans spans ids

  unfoldable pub persist_trace : Trace h → PersistedTrace h
  persist_trace t = record {
    trace_id = t.trace_id;
    spans = ordered_spans t.spans t.span_order;
    last_updated_at = t.last_updated_at;
    path_contributions = t.path_contributions;
  }

  abbrev pub span_ids : List (Span h) → List Bytes
  span_ids [] = []
  span_ids (s ∷ ss) = s.span_id ∷ span_ids ss

  unfoldable pub restore_trace : PersistedTrace h → Result RestoreError (Trace h)
  restore_trace t =
      restore_all invalid_span (λ (s : Span h). s.span_id) (λ s. ok s) t.spans [] >>= (λ spans.
        ok (record {
          trace_id = t.trace_id;
          spans = spans;
          span_order = span_ids t.spans;
          last_updated_at = t.last_updated_at;
          path_contributions = t.path_contributions;
        }))

  -- `persistedState`; the checksum is 0 until `Save` sets it.
  unfoldable pub persisted_state : Engine h → PersistedState h
  persisted_state e = record {
    version = 1;
    checksum = 0;
    nodes = persist_all (λ n. n.id) persist_node e.nodes;
    edges = persist_all (λ d. d.id) persist_edge e.edges;
    paths = persist_all (λ p. p.id) persist_path e.paths;
    traces = persist_all (λ t. t.trace_id) persist_trace e.traces;
    seen_span_ids = sort_strings e.seen_span_ids;
    seen_edge_span_ids = sort_strings e.seen_edge_span_ids;
    application_names = sort_strings e.application_names;
    node_version = e.node_version;
    clock = e.clock;
    revision = e.revision;
    runtime = e.runtime;
    active_nodes = e.active_nodes;
    active_edges = e.active_edges;
    max_recent_traces = e.max_recent_traces;
    max_latency_samples = e.max_latency_samples;
    max_runtime_paths = e.max_runtime_paths;
  }

  -- The options that a checkpoint overrides.
  unfoldable pub options_of : PersistedState h → Options → Options
  options_of s options = record options {
    max_recent_traces = or_default options.max_recent_traces s.max_recent_traces;
    max_latency_samples = or_default options.max_latency_samples s.max_latency_samples;
    max_runtime_paths = or_default options.max_runtime_paths s.max_runtime_paths;
    node_version = if null s.node_version then options.node_version else s.node_version;
  }

  unfoldable pub restore_state : PersistedState h → Options → Result RestoreError (Engine h)
  restore_state s options =
      let e = new h (options_of s options) in
      restore_all invalid_node (λ n. n.id) (λ n. ok (restore_node n)) s.nodes [] >>= (λ nodes.
        restore_all invalid_edge (λ d. d.id) (λ d. ok (restore_edge d)) s.edges [] >>= (λ edges.
          restore_all invalid_path (λ p. p.id) (λ p. ok (restore_path p)) s.paths [] >>= (λ paths.
            restore_all invalid_trace (λ t. t.trace_id) restore_trace s.traces [] >>= (λ traces.
              ok (record e {
                nodes = nodes;
                edges = edges;
                paths = paths;
                traces = traces;
                seen_span_ids = add_all s.seen_span_ids [];
                seen_edge_span_ids = add_all s.seen_edge_span_ids [];
                application_names = add_all s.application_names e.application_names;
                clock = s.clock;
                revision = s.revision;
                runtime = s.runtime;
                active_nodes = s.active_nodes;
                active_edges = s.active_edges;
              })))))
