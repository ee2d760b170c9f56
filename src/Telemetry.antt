-- ===== src/Telemetry.antt =====
-- runtime/go/internal/telemetry/model.go: envelopes. What the collector does not look into, a span
-- and the gauges of the runtime metrics, are the parameters `S` and `R`.
pub mod Validate
use node_flow.Prelude.{ℕ, Option, none, some, List, length}
use node_flow.Bytes.{Bytes}

pub record SpanBatch (S : Type 0) : Type 0 where
  pub service_name : Bytes
  pub node_version : Bytes
  pub spans : List S

pub record RuntimeMetrics (R : Type 0) : Type 0 where
  pub service_name : Bytes
  pub gauges : R

pub record Envelope (S R : Type 0) : Type 0 where
  pub protocol_version : Bytes
  pub span_batch : Option (SpanBatch S)
  pub runtime_metrics : Option (RuntimeMetrics R)

unfoldable pub event_count : {S R : Type 0} → Envelope S R → ℕ
event_count e = elim e.span_batch [
  | some b ↦ length b.spans
  | none ↦ elim e.runtime_metrics [ some m ↦ 1 | none ↦ 0 ]
]
