-- ===== src/Topology/Examples.antt =====
-- The theorems on runtime/go/internal/topology at work: one trace of three spans, with numbers for
-- float64 and plain functions for those of the standard library.
use node_flow.Prelude.{
  ℕ, ◌+◌, ◌≤◌, ◌≡◌, refl, true, has, find, assign, List, [], ◌∷◌, length, arith,
}
use node_flow.Bytes.{Bytes}
use node_flow.Topology.{Span, RuntimeMetrics, Trace, Engine}
use node_flow.Topology.Plain.{host}
use node_flow.Topology.Identity.{
  stable_node_id, normalize_semantic_identity, join_with, normalize_parts, trim_dashes, trim_right,
  trim_left, replace_runs, split_colons, has_prefix,
}
use node_flow.Topology.Paths.{nearest_trace_parent}
use node_flow.Topology.Ancestors.{Ends, parents_end}
use node_flow.Topology.Ingest.{
  nearest_parent_node, admit_spans, admit_span, count_node, resolve_or_create, new_node, join_trace,
  node_id, string_attribute, attribute_string_value, http_route, service, custom, error_status,
}
use node_flow.Topology.Trim.{trim_traces}
use node_flow.Topology.Batch.{Options, new, start_batch, ingest}
use node_flow.Topology.Sound.{IsEngine}
use node_flow.Topology.Trimmed.{length-trim_traces}
use node_flow.Topology.Whole.{
  Call, spans_came, metrics_came, application_came, limits_of, answer_all, new-IsEngine,
  answer_all-IsEngine,
}
use node_flow.Topology.Totals.{total, fresh, is_counted_span}
use node_flow.Topology.Delivery.{ingest-total, ingest_twice}

abbrev span_of : Bytes → Bytes → Bytes → ℕ → Span host
span_of id parent kind start = record {
  trace_id = b't' ∷ [];
  span_id = id;
  parent_span_id = parent;
  name = id;
  kind = kind;
  start_time = start;
  duration = 5;
  status = error_status;
  attributes = [];
}

-- A request, its handler, and a service below that.
abbrev one_trace : List (Span host)
one_trace =
    span_of (b'a' ∷ []) [] http_route 1
    ∷ span_of (b'b' ∷ []) (b'a' ∷ []) custom 2
    ∷ span_of (b'c' ∷ []) (b'b' ∷ []) service 3
    ∷ []

abbrev small : Options
small = record {
  application_name = b'x' ∷ [];
  node_version = [];
  max_recent_traces = 4;
  max_latency_samples = 3;
  max_runtime_paths = 2;
}

abbrev usage : RuntimeMetrics host
usage = record {
  timestamp = 1;
  service_name = b'x' ∷ [];
  rss_bytes = 1;
  heap_used_bytes = 1;
  heap_total_bytes = 1;
  cpu_percent = 1;
  event_loop_utilization = 1;
  uptime_seconds = 1;
}

abbrev three_calls : List (Call host)
three_calls =
    spans_came one_trace ∷ metrics_came usage ∷ application_came (b'y' ∷ []) (b'2' ∷ []) ∷ []

answer_all-IsEngine_example :
    IsEngine host (limits_of small) (answer_all host three_calls (new host small))
    × (length ((answer_all host three_calls (new host small)).traces) ≤ (limits_of small).traces)
answer_all-IsEngine_example = answer_all-IsEngine host small three_calls

-- Two of the three spans have a topology kind, and both failed.
one_trace-fresh : fresh host true [] one_trace ≡ 2
unfolding fresh is_counted_span
one_trace-fresh = refl

ingest-total_example :
    total host true ((ingest host one_trace (new host small)).nodes)
    ≡ total host true ((new host small).nodes)
      + fresh host true ((new host small).seen_span_ids) one_trace
ingest-total_example =
    ingest-total host (limits_of small) true one_trace (new host small) (omega arith)
      (new-IsEngine host small)

-- A trace of two spans, each below the other, of kinds that make no node.
abbrev cyclic_trace : Trace host
cyclic_trace = record {
  trace_id = b't' ∷ [];
  spans =
      (b'a' ∷ [], span_of (b'a' ∷ []) (b'b' ∷ []) custom 1)
      ∷ (b'b' ∷ [], span_of (b'b' ∷ []) (b'a' ∷ []) custom 2)
      ∷ [];
  span_order = (b'a' ∷ []) ∷ (b'b' ∷ []) ∷ [];
  last_updated_at = 1;
  path_contributions = [];
}

parents_end_example :
    Ends (nearest_trace_parent host 3 cyclic_trace [] [] (b'a' ∷ []))
    × Ends (nearest_parent_node host 3 (new host small) cyclic_trace [] (b'a' ∷ []))
parents_end_example =
    parents_end host (new host small) cyclic_trace [] (b'a' ∷ []) (refl, (refl, tt))

-- An engine that may keep one trace, with two of them.
abbrev narrow : Options
narrow = record {
  application_name = b'x' ∷ [];
  node_version = [];
  max_recent_traces = 1;
  max_latency_samples = 3;
  max_runtime_paths = 2;
}

abbrev crowded : Engine host
crowded = record (new host narrow) {
  traces =
      (b't' ∷ [], cyclic_trace)
      ∷ (b'u' ∷ [], record cyclic_trace { trace_id = b'u' ∷ []; last_updated_at = 2 })
      ∷ [];
}

crowded-IsEngine : IsEngine host (limits_of narrow) crowded
unfolding new find
crowded-IsEngine = record {
  trace_limit = refl;
  sample_limit = refl;
  path_limit = refl;
  one_trace_each = (refl, (refl, tt));
  traces = (refl, (refl, tt));
  nodes = tt;
  edges = tt;
  paths = tt;
  paths_le = omega arith;
}

length-trim_traces_example : length ((trim_traces host crowded).traces) ≤ 1
length-trim_traces_example = length-trim_traces host (limits_of narrow) crowded crowded-IsEngine

-- The batch brings one trace, for which the limit has room.
one_trace-fits :
    length ((admit_spans host one_trace (start_batch host (new host narrow))).traces) ≡ 1
unfolding new start_batch admit_spans admit_span count_node resolve_or_create new_node join_trace
    has find assign node_id string_attribute attribute_string_value stable_node_id
    normalize_semantic_identity join_with normalize_parts trim_dashes trim_right trim_left
    replace_runs split_colons has_prefix
one_trace-fits = refl

ingest_twice_example :
    (ingest host one_trace (ingest host one_trace (new host narrow))).nodes
    ≡ (ingest host one_trace (new host narrow)).nodes
ingest_twice_example =
    ingest_twice host (limits_of narrow) one_trace (new host narrow) (omega arith)
      (new-IsEngine host narrow) (omega (arith, one_trace-fits))
