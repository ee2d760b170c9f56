-- ===== src/Topology/State/Data.antt =====
-- runtime/go/internal/topology/state.go: what a checkpoint holds.
use node_flow.Prelude.{ℕ, Option, List}
use node_flow.Bytes.{Bytes}
use node_flow.Topology.{Host, Span, Contribution, RuntimeMetrics}

pub record PersistedMetric (h : Host) : Type 0 where
  pub count : ℕ
  pub errors : ℕ
  pub total_latency : h.F
  pub latencies : List h.F

pub record PersistedNode (h : Host) : Type 0 where
  pub id : Bytes
  pub name : Bytes
  pub kind : Bytes
  pub framework : Bytes
  pub operation : Bytes
  pub metrics : PersistedMetric h

pub record PersistedEdge (h : Host) : Type 0 where
  pub id : Bytes
  pub source : Bytes
  pub target : Bytes
  pub metrics : PersistedMetric h

pub record PersistedPath (h : Host) : Type 0 where
  pub id : Bytes
  pub entrypoint : Bytes
  pub nodes : List Bytes
  pub metrics : PersistedMetric h
  pub last_updated_at : ℕ

pub record PersistedTrace (h : Host) : Type 0 where
  pub trace_id : Bytes
  pub spans : List (Span h)
  pub last_updated_at : ℕ
  pub path_contributions : List (Bytes × Contribution h)

pub record PersistedState (h : Host) : Type 0 where
  pub version : ℕ
  pub checksum : ℕ
  pub nodes : List (PersistedNode h)
  pub edges : List (PersistedEdge h)
  pub paths : List (PersistedPath h)
  pub traces : List (PersistedTrace h)
  pub seen_span_ids : List Bytes
  pub seen_edge_span_ids : List Bytes
  pub application_names : List Bytes
  pub node_version : Bytes
  pub clock : ℕ
  pub revision : ℕ
  pub runtime : Option (RuntimeMetrics h)
  pub active_nodes : List Bytes
  pub active_edges : List Bytes
  pub max_recent_traces : ℕ
  pub max_latency_samples : ℕ
  pub max_runtime_paths : ℕ

pub data RestoreError : Type 0 where
  invalid_node invalid_edge invalid_path invalid_trace invalid_span : Bytes → RestoreError
