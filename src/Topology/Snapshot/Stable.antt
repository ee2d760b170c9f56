-- ===== src/Topology/Snapshot/Stable.antt =====
-- runtime/go/internal/topology/engine.go: `snapshotLocked`, the architecture snapshot, without the time
-- of its making.
use node_flow.Prelude.{ℕ, Option, none, some, List, [], ◌∷◌, length, find, ltb, if◌then◌else◌}
use node_flow.Bytes.{Bytes}
use node_flow.Topology.{Host, Metric, Node, Edge, Engine}
use node_flow.Topology.Ingest.{http_route, controller, service, worker}
use node_flow.Topology.State.{persist_all, sort_strings}
use node_flow.Topology.Snapshot.{PathSummary, average, percentile, hundredths, build_runtime_paths}

pub record NodeMetrics (h : Host) : Type 0 where
  pub call_count : ℕ
  pub error_count : ℕ
  pub avg_duration : h.F
  pub p50_duration : h.F
  pub p95_duration : h.F
  pub p99_duration : h.F

pub record EdgeMetrics (h : Host) : Type 0 where
  pub call_count : ℕ
  pub error_count : ℕ
  pub avg_duration : h.F
  pub p95_duration : h.F

pub record StableNode (h : Host) : Type 0 where
  pub id : Bytes
  pub kind : Bytes
  pub name : Bytes
  pub framework : Bytes
  pub metrics : NodeMetrics h

pub record StableEdge (h : Host) : Type 0 where
  pub id : Bytes
  pub source : Bytes
  pub target : Bytes
  pub metrics : EdgeMetrics h

-- `metadata` lists the services where there are several.
pub record Snapshot (h : Host) : Type 0 where
  pub application_name : Bytes
  pub node_version : Bytes
  pub nodes : List (StableNode h)
  pub edges : List (StableEdge h)
  pub paths : List (PathSummary h)
  pub metadata : Option (List Bytes)

-- "http", "database", "redis", "cache", "queue", "provider", "external-http" and "external-service".
abbrev pub node_types : List (Bytes × Bytes)
node_types =
    (http_route, b'h' ∷ b't' ∷ b't' ∷ b'p' ∷ [])
    ∷ (controller, controller)
    ∷ (service, service)
    ∷ (
      b'd' ∷ b'a' ∷ b't' ∷ b'a' ∷ b'b' ∷ b'a' ∷ b's' ∷ b'e' ∷ [],
      b'd' ∷ b'a' ∷ b't' ∷ b'a' ∷ b'b' ∷ b'a' ∷ b's' ∷ b'e' ∷ [],
    )
    ∷ (b'r' ∷ b'e' ∷ b'd' ∷ b'i' ∷ b's' ∷ [], b'c' ∷ b'a' ∷ b'c' ∷ b'h' ∷ b'e' ∷ [])
    ∷ (b'q' ∷ b'u' ∷ b'e' ∷ b'u' ∷ b'e' ∷ [], b'q' ∷ b'u' ∷ b'e' ∷ b'u' ∷ b'e' ∷ [])
    ∷ (worker, b'p' ∷ b'r' ∷ b'o' ∷ b'v' ∷ b'i' ∷ b'd' ∷ b'e' ∷ b'r' ∷ [])
    ∷ (
      b'e' ∷ b'x' ∷ b't' ∷ b'e' ∷ b'r' ∷ b'n' ∷ b'a' ∷ b'l' ∷ b'-' ∷ b'h' ∷ b't' ∷ b't' ∷ b'p' ∷ [],
      b'e' ∷ b'x' ∷ b't' ∷ b'e' ∷ b'r' ∷ b'n' ∷ b'a' ∷ b'l' ∷ b'-' ∷ b's' ∷ b'e' ∷ b'r' ∷ b'v'
          ∷ b'i' ∷ b'c' ∷ b'e' ∷ [],
    )
    ∷ []

abbrev pub or_empty : Option Bytes → Bytes
or_empty none = []
or_empty (some s) = s

unfoldable pub architecture_node_type : Bytes → Bytes
architecture_node_type kind = or_empty (find kind node_types)

abbrev pub first_or_empty : List Bytes → Bytes
first_or_empty [] = []
first_or_empty (s ∷ ss) = s

module _ (h : Host) where
  unfoldable pub node_metrics : Metric h → NodeMetrics h
  node_metrics m = record {
    call_count = m.count;
    error_count = m.errors;
    avg_duration = average h m;
    p50_duration = percentile h m.latencies (hundredths h 50);
    p95_duration = percentile h m.latencies (hundredths h 95);
    p99_duration = percentile h m.latencies (hundredths h 99);
  }

  unfoldable pub edge_metrics : Metric h → EdgeMetrics h
  edge_metrics m = record {
    call_count = m.count;
    error_count = m.errors;
    avg_duration = average h m;
    p95_duration = percentile h m.latencies (hundredths h 95);
  }

  unfoldable pub stable_node : Node h → StableNode h
  stable_node n = record {
    id = n.id;
    kind = architecture_node_type n.kind;
    name = n.name;
    framework = n.framework;
    metrics = node_metrics n.metrics;
  }

  unfoldable pub stable_edge : Edge h → StableEdge h
  stable_edge e = record {
    id = e.id;
    source = e.source;
    target = e.target;
    metrics = edge_metrics e.metrics;
  }

  -- `snapshotLocked`.
  unfoldable pub create_snapshot : Engine h → Snapshot h
  create_snapshot e =
      let services = sort_strings e.application_names in
      record {
        application_name = first_or_empty services;
        node_version = e.node_version;
        nodes = persist_all (λ n. n.id) stable_node e.nodes;
        edges = persist_all (λ d. d.id) stable_edge e.edges;
        paths = build_runtime_paths h e.paths;
        metadata = if ltb 1 (length services) then some services else none;
      }
