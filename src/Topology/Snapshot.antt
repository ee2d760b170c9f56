-- ===== src/Topology/Snapshot.antt =====
-- runtime/go/internal/topology: the snapshots that are read off the engine (engine.go, model.go), without
-- the time of their making.
mod Stable
mod Closed
mod Examples
use node_flow.Prelude.{
  ℕ, ◌-◌, ◌*◌, Bool, true, false, not, ◌||◌, ◌&&◌, Option, none, some, List, [], ◌∷◌, length, null,
  has, find, get_or, ltb, ◌==◌, if◌then◌else◌, bytes_eq,
}
use node_flow.Bytes.{Bytes}
use node_flow.Topology.{Host, Span, Metric, Node, Edge, RuntimePath, Trace, RuntimeMetrics, Engine}
use node_flow.Topology.Ingest.{http_route, controller, service, worker, topology_kinds}
use node_flow.Topology.Paths.{TraceSpan, trace_span, BuiltTrace, build_trace, round, span_or_zero}
use node_flow.Topology.State.{string_before, persist_all, sort_strings}

pub record MetricSummary (h : Host) : Type 0 where
  pub request_count : ℕ
  pub error_count : ℕ
  pub error_rate : h.F
  pub avg_latency : h.F
  pub p50_latency : h.F
  pub p95_latency : h.F
  pub p99_latency : h.F

pub record LiveNode (h : Host) : Type 0 where
  pub id : Bytes
  pub name : Bytes
  pub kind : Bytes
  pub framework : Bytes
  pub operation : Bytes
  pub summary : MetricSummary h

pub record LiveEdge (h : Host) : Type 0 where
  pub id : Bytes
  pub source : Bytes
  pub target : Bytes
  pub summary : MetricSummary h

pub record PathSummary (h : Host) : Type 0 where
  pub id : Bytes
  pub entrypoint : Bytes
  pub nodes : List Bytes
  pub calls : ℕ
  pub errors : ℕ
  pub avg_duration : h.F
  pub p95_duration : h.F

pub record RecentTrace (h : Host) : Type 0 where
  pub id : Bytes
  pub name : Bytes
  pub started_at : h.F
  pub duration : h.F
  pub failed : Bool
  pub spans : List (TraceSpan h)

pub record LiveSnapshot (h : Host) : Type 0 where
  pub revision : ℕ
  pub nodes : List (LiveNode h)
  pub edges : List (LiveEdge h)
  pub paths : List (PathSummary h)
  pub traces : List (RecentTrace h)
  pub runtime : Option (RuntimeMetrics h)
  pub active_nodes : List Bytes
  pub active_edges : List Bytes

-- "Trace".
abbrev pub trace_name : Bytes
trace_name = b'T' ∷ b'r' ∷ b'a' ∷ b'c' ∷ b'e' ∷ []

module _ (h : Host) where
  unfoldable pub average : Metric h → h.F
  average m =
      let mean = round h (h.div_f m.total_latency (h.of_nat m.count)) in
      if m.count == 0 then h.zero_f else mean

  -- `sort.Float64s`.
  unfoldable pub insert_float : h.F → List h.F → List h.F
  insert_float f [] = f ∷ []
  insert_float f (g ∷ gs) =
      let later = insert_float f gs in if h.lt_f g f then g ∷ later else f ∷ g ∷ gs

  unfoldable pub sort_floats : List h.F → List h.F
  sort_floats [] = []
  sort_floats (f ∷ fs) = insert_float f (sort_floats fs)

  -- The share is a number of hundredths.
  abbrev pub hundredths : ℕ → h.F
  hundredths n = h.div_f (h.of_nat n) (h.of_nat 100)

  unfoldable pub percentile : List h.F → h.F → h.F
  percentile values share =
      let index = h.ceil_nat (h.mul_f share (h.of_nat (length values))) - 1 in
      if null values then h.zero_f else round h (get_or (sort_floats values) index h.zero_f)

  unfoldable pub summarize : Metric h → MetricSummary h
  summarize m =
      let rate =
        round h (h.mul_f (h.div_f (h.of_nat m.errors) (h.of_nat m.count)) (h.of_nat 100)) in
      record {
        request_count = m.count;
        error_count = m.errors;
        error_rate = if ltb 0 m.count then rate else h.zero_f;
        avg_latency = average m;
        p50_latency = percentile m.latencies (hundredths 50);
        p95_latency = percentile m.latencies (hundredths 95);
        p99_latency = percentile m.latencies (hundredths 99);
      }

  unfoldable pub live_node : Node h → LiveNode h
  live_node n = record {
    id = n.id;
    name = n.name;
    kind = n.kind;
    framework = n.framework;
    operation = n.operation;
    summary = summarize n.metrics;
  }

  unfoldable pub live_edge : Edge h → LiveEdge h
  live_edge e = record {
    id = e.id;
    source = e.source;
    target = e.target;
    summary = summarize e.metrics;
  }

  unfoldable pub path_of : RuntimePath h → PathSummary h
  path_of p = record {
    id = p.id;
    entrypoint = p.entrypoint;
    nodes = p.nodes;
    calls = p.metrics.count;
    errors = p.metrics.errors;
    avg_duration = average p.metrics;
    p95_duration = percentile p.metrics.latencies (hundredths 95);
  }

  -- The paths by their calls, the most first, and by their identifiers.
  abbrev pub path_before : PathSummary h → PathSummary h → Bool
  path_before a b = if a.calls == b.calls then string_before a.id b.id else ltb b.calls a.calls

  unfoldable pub insert_path : PathSummary h → List (PathSummary h) → List (PathSummary h)
  insert_path p [] = p ∷ []
  insert_path p (q ∷ qs) =
      let later = insert_path p qs in if path_before q p then q ∷ later else p ∷ q ∷ qs

  unfoldable pub build_runtime_paths : List (Bytes × RuntimePath h) → List (PathSummary h)
  build_runtime_paths [] = []
  build_runtime_paths ((id, p) ∷ paths) = insert_path (path_of p) (build_runtime_paths paths)

  unfoldable pub contains_topology : Trace h → List Bytes → Bool
  contains_topology trace [] = false
  contains_topology trace (id ∷ ids) =
      has (span_or_zero h (find id trace.spans)).kind topology_kinds || contains_topology trace ids

  -- The traces with a topology span, the latest first.
  unfoldable pub insert_latest : Trace h → List (Trace h) → List (Trace h)
  insert_latest t [] = t ∷ []
  insert_latest t (u ∷ ts) =
      let later = insert_latest t ts in
      if ltb t.last_updated_at u.last_updated_at then u ∷ later else t ∷ u ∷ ts

  unfoldable pub latest_traces : List (Bytes × Trace h) → List (Trace h)
  latest_traces [] = []
  latest_traces ((id, t) ∷ traces) =
      let rest = latest_traces traces in
      if contains_topology t t.span_order then insert_latest t rest else rest

  abbrev pub root_id : List (TraceSpan h) → Bytes
  root_id [] = []
  root_id (trace_span s id children ∷ roots) = s.trace_id

  abbrev pub root_name : List (TraceSpan h) → Bytes
  root_name [] = trace_name
  root_name (trace_span s id children ∷ roots) = s.name

  unfoldable pub recent_trace : Trace h → RecentTrace h
  recent_trace t =
      let built = build_trace h t in
      record {
        id = root_id built.roots;
        name = root_name built.roots;
        started_at = built.started_at;
        duration = built.duration;
        failed = built.failed;
        spans = built.roots;
      }

  unfoldable pub recent_traces : List (Trace h) → List (RecentTrace h)
  recent_traces [] = []
  recent_traces (t ∷ ts) = recent_trace t ∷ recent_traces ts

  unfoldable pub build_recent_traces : List (Bytes × Trace h) → List (RecentTrace h)
  build_recent_traces traces = recent_traces (latest_traces traces)

  -- `liveSnapshotLocked`.
  unfoldable pub live_snapshot : Engine h → LiveSnapshot h
  live_snapshot e = record {
    revision = e.revision;
    nodes = persist_all (λ n. n.name) live_node e.nodes;
    edges = persist_all (λ d. d.id) live_edge e.edges;
    paths = build_runtime_paths e.paths;
    traces = build_recent_traces e.traces;
    runtime = e.runtime;
    active_nodes = e.active_nodes;
    active_edges = e.active_edges;
  }
