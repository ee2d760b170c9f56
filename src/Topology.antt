-- ===== src/Topology.antt =====
-- runtime/go/internal/topology: the state of the engine (engine.go, model.go).
--
-- Strings are their bytes. Floating-point numbers and the functions of the standard library on text
-- are fields of `Host`.
pub mod Identity
pub mod Metrics
pub mod Ingest
pub mod Trim
pub mod Paths
pub mod Aggregate
pub mod Batch
pub mod Sound
pub mod Linked
pub mod Weighed
pub mod Trimmed
pub mod Whole
pub mod Quiet
pub mod Totals
pub mod Delivery
pub mod Ancestors
pub mod State
pub mod Snapshot
pub mod Plain
mod Examples
use node_flow.Prelude.{ℕ, Bool, Option, none, some, List, [], ◌∷◌, ◌+◌, ◌%◌, ◌^◌, bytes_eq, find}
use node_flow.Bytes.{Bytes}

-- `F` is float64 with its operations; `Other` is a JSON value that is neither text, number nor
-- Boolean. `ceil_nat` is the number of `math.Ceil`, 0 below it. `utf16` is `utf16.Encode([]rune(value))`, and `base36` is `strconv.FormatUint` to 36.
pub record Host : Type 1 where
  pub F : Type 0
  pub zero_f : F
  pub add_f : F → F → F
  pub sub_f : F → F → F
  pub lt_f : F → F → Bool
  pub eq_f : F → F → Bool
  pub mul_f : F → F → F
  pub div_f : F → F → F
  pub floor_f : F → F
  pub ceil_nat : F → ℕ
  pub of_nat : ℕ → F
  pub format_f : F → Bytes
  pub Other : Type 0
  pub sprint : Other → Bytes
  pub trim_space : Bytes → Bytes
  pub to_lower : Bytes → Bytes
  pub utf16 : Bytes → List ℕ
  pub base36 : ℕ → Bytes

-- An attribute's value; `nothing` is nil.
pub data Value (h : Host) : Type 0 where
  nothing : Value h
  text : Bytes → Value h
  number : h.F → Value h
  boolean : Bool → Value h
  other : h.Other → Value h

pub record Span (h : Host) : Type 0 where
  pub trace_id : Bytes
  pub span_id : Bytes
  pub parent_span_id : Bytes
  pub name : Bytes
  pub kind : Bytes
  pub start_time : h.F
  pub duration : h.F
  pub status : Bytes
  pub attributes : List (Bytes × Value h)

pub record Metric (h : Host) : Type 0 where
  pub count : ℕ
  pub errors : ℕ
  pub total_latency : h.F
  pub latencies : List h.F

pub record Node (h : Host) : Type 0 where
  pub id : Bytes
  pub name : Bytes
  pub kind : Bytes
  pub framework : Bytes
  pub operation : Bytes
  pub metrics : Metric h

pub record Edge (h : Host) : Type 0 where
  pub id : Bytes
  pub source : Bytes
  pub target : Bytes
  pub metrics : Metric h

pub record RuntimePath (h : Host) : Type 0 where
  pub id : Bytes
  pub entrypoint : Bytes
  pub nodes : List Bytes
  pub metrics : Metric h
  pub last_updated_at : ℕ

pub record Contribution (h : Host) : Type 0 where
  pub duration : h.F
  pub failed : Bool

pub record Trace (h : Host) : Type 0 where
  pub trace_id : Bytes
  pub spans : List (Bytes × Span h)
  pub span_order : List Bytes
  pub last_updated_at : ℕ
  pub path_contributions : List (Bytes × Contribution h)

pub record RuntimeMetrics (h : Host) : Type 0 where
  pub timestamp : h.F
  pub service_name : Bytes
  pub rss_bytes : ℕ
  pub heap_used_bytes : ℕ
  pub heap_total_bytes : ℕ
  pub cpu_percent : h.F
  pub event_loop_utilization : h.F
  pub uptime_seconds : h.F

pub record Engine (h : Host) : Type 0 where
  pub nodes : List (Bytes × Node h)
  pub edges : List (Bytes × Edge h)
  pub paths : List (Bytes × RuntimePath h)
  pub traces : List (Bytes × Trace h)
  pub seen_span_ids : List Bytes
  pub seen_edge_span_ids : List Bytes
  pub max_recent_traces : ℕ
  pub max_latency_samples : ℕ
  pub max_runtime_paths : ℕ
  pub application_names : List Bytes
  pub node_version : Bytes
  pub clock : ℕ
  pub revision : ℕ
  pub runtime : Option (RuntimeMetrics h)
  pub active_nodes : List Bytes
  pub active_edges : List Bytes

-- A uint64 that counts up.
abbrev pub tick : ℕ → ℕ
tick n = (n + 1) % 2 ^ 64
