-- ===== src/Topology/Snapshot/Examples.antt =====
-- The snapshots of an engine behind one batch of spans.
use node_flow.Prelude.{◌≤◌, ◌≡◌, List, [], ◌∷◌, All, has, keys}
use node_flow.Bytes.{Bytes}
use node_flow.Topology.{Span}
use node_flow.Topology.Plain.{host}
use node_flow.Topology.Ingest.{http_route, service}
use node_flow.Topology.Batch.{Options, new}
use node_flow.Topology.Whole.{Call, spans_came, answer_all}
use node_flow.Topology.Snapshot.{live_snapshot}
use node_flow.Topology.Snapshot.Stable.{create_snapshot}
use node_flow.Topology.Snapshot.Closed.{
  IsClosed, node_ids, stable_ids, edge_ids, stable_edge_ids, live_snapshot-answer_all,
  create_snapshot-answer_all,
}

abbrev shown_span : Bytes → Bytes → Bytes → Span host
shown_span id parent kind = record {
  trace_id = b't' ∷ [];
  span_id = id;
  parent_span_id = parent;
  name = id;
  kind = kind;
  start_time = 1;
  duration = 5;
  status = [];
  attributes = [];
}

abbrev one_call : List (Call host)
one_call =
    spans_came
      (shown_span (b'a' ∷ []) [] http_route ∷ shown_span (b'b' ∷ []) (b'a' ∷ []) service ∷ [])
    ∷ []

abbrev bare : Options
bare = record {
  application_name = [];
  node_version = [];
  max_recent_traces = 0;
  max_latency_samples = 0;
  max_runtime_paths = 0;
}

live_snapshot-answer_all_example :
    All
      (IsClosed host ((live_snapshot host (answer_all host one_call (new host bare))).nodes))
      ((live_snapshot host (answer_all host one_call (new host bare))).edges)
    × All
        (λ n. n.summary.error_count ≤ n.summary.request_count)
        ((live_snapshot host (answer_all host one_call (new host bare))).nodes)
    × ((k : Bytes)
        → has k
            (node_ids host ((live_snapshot host (answer_all host one_call (new host bare))).nodes))
          ≡ has k (keys ((answer_all host one_call (new host bare)).nodes)))
live_snapshot-answer_all_example = live_snapshot-answer_all host bare one_call

create_snapshot-answer_all_example :
    (has
        (b'a' ∷ [])
        (stable_ids host ((create_snapshot host (answer_all host one_call (new host bare))).nodes))
      ≡ has
          (b'a' ∷ [])
          (node_ids host ((live_snapshot host (answer_all host one_call (new host bare))).nodes)))
    × (has (b'a' ∷ []) (
          stable_edge_ids host
            ((create_snapshot host (answer_all host one_call (new host bare))).edges))
        ≡ has
            (b'a' ∷ [])
            (edge_ids host ((live_snapshot host (answer_all host one_call (new host bare))).edges)))
    × ((create_snapshot host (answer_all host one_call (new host bare))).paths
        ≡ (live_snapshot host (answer_all host one_call (new host bare))).paths)
create_snapshot-answer_all_example = create_snapshot-answer_all host bare one_call (b'a' ∷ [])
