-- ===== src/Topology/Batch.antt =====
-- runtime/go/internal/topology/engine.go: `New`, `RegisterApplication`, `Ingest` and `UpdateRuntime`.
use node_flow.Prelude.{ℕ, none, some, List, [], ◌∷◌, null, find, if◌then◌else◌, ◌==◌}
use node_flow.Bytes.{Bytes}
use node_flow.Topology.{Host, Span, RuntimeMetrics, Engine, tick}
use node_flow.Topology.Ingest.{admit_spans, touched_traces, link_touched, add_new}
use node_flow.Topology.Trim.{trim_traces}
use node_flow.Topology.Aggregate.{aggregate}

-- `Options`.
pub record Options : Type 0 where
  pub application_name : Bytes
  pub node_version : Bytes
  pub max_recent_traces : ℕ
  pub max_latency_samples : ℕ
  pub max_runtime_paths : ℕ

abbrev pub or_default : ℕ → ℕ → ℕ
or_default default n = if n == 0 then default else n

-- "unknown".
abbrev pub unknown : Bytes
unknown = b'u' ∷ b'n' ∷ b'k' ∷ b'n' ∷ b'o' ∷ b'w' ∷ b'n' ∷ []

module _ (h : Host) where
  abbrev pub add_name : Bytes → List Bytes → List Bytes
  add_name name names = if null name then names else add_new name names

  -- `New`.
  unfoldable pub new : Options → Engine h
  new options = record {
    nodes = [];
    edges = [];
    paths = [];
    traces = [];
    seen_span_ids = [];
    seen_edge_span_ids = [];
    max_recent_traces = or_default 50 options.max_recent_traces;
    max_latency_samples = or_default 1000 options.max_latency_samples;
    max_runtime_paths = or_default 1000 options.max_runtime_paths;
    application_names = add_name (h.trim_space options.application_name) [];
    node_version = if null options.node_version then unknown else options.node_version;
    clock = 0;
    revision = 0;
    runtime = none;
    active_nodes = [];
    active_edges = [];
  }

  -- `RegisterApplication`.
  unfoldable pub register_application : Bytes → Bytes → Engine h → Engine h
  register_application name node_version e = record e {
    application_names = add_name (h.trim_space name) e.application_names;
    node_version =
        if null (h.trim_space node_version) then e.node_version else h.trim_space node_version;
  }

  -- The third loop of `Ingest`.
  unfoldable pub aggregate_touched : List Bytes → Engine h → Engine h
  aggregate_touched [] e = e
  aggregate_touched (id ∷ ids) e = elim (find id e.traces) [
    | none ↦ aggregate_touched ids e
    | some trace ↦ aggregate_touched ids (aggregate h trace e)
  ]

  -- The fresh lists of what a batch touches.
  unfoldable pub start_batch : Engine h → Engine h
  start_batch e = record e { active_nodes = []; active_edges = [] }

  -- `Ingest`, without the snapshot that it returns.
  unfoldable pub ingest : List (Span h) → Engine h → Engine h
  ingest spans e =
      let touched = touched_traces h spans [] in
      let e2 = trim_traces h (
        aggregate_touched touched (link_touched h touched (admit_spans h spans (start_batch e)))) in
      record e2 { revision = tick e2.revision }

  -- `UpdateRuntime`, without the snapshot that it returns.
  unfoldable pub update_runtime : RuntimeMetrics h → Engine h → Engine h
  update_runtime metrics e = record e {
    runtime = some metrics;
    revision = tick e.revision;
    active_nodes = [];
    active_edges = [];
  }
