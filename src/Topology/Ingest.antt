-- ===== src/Topology/Ingest.antt =====
-- runtime/go/internal/topology/engine.go: the first two loops of `Ingest`, which admit spans and link
-- them by edges.
mod Kinds
pub use Kinds.*
use node_flow.Prelude.{
  ℕ, zero, suc, ◌+◌, ◌-◌, ◌%◌, ◌^◌, Bool, true, false, not, ◌&&◌, ◌||◌, Option, none, some, List,
  [], ◌∷◌, ◌++◌, length, null, take, bytes_eq, has, without, find, assign, remove, ltb, leb,
  if◌then◌else◌,
}
use node_flow.Bytes.{Bytes}
use node_flow.Topology.{
  Host, Value, nothing, text, number, boolean, other, Span, Metric, Node, Edge, Trace, Engine, tick,
}
use node_flow.Topology.Identity.{stable_node_id, stable_edge_id}
use node_flow.Topology.Metrics.{no_metric, record_metric}

-- A walk up a trace: what it found, if anything, or that the fuel ran out.
pub data Walk (A : Type 0) : Type 0 where
  out_of_fuel : Walk A
  ended : Option A → Walk A

abbrev pub found_by : {A : Type 0} → Walk A → Option A
found_by out_of_fuel = none
found_by (ended o) = o

module _ (h : Host) where
  abbrev pub text_of : Option (Value h) → Bytes
  text_of (some (text s)) = s
  text_of _ = []

  unfoldable pub string_attribute : Span h → Bytes → Bytes
  string_attribute span key = text_of (find key span.attributes)

  unfoldable pub attribute_string_value : Option (Value h) → Bytes → Bytes
  attribute_string_value none fallback = fallback
  attribute_string_value (some nothing) fallback = fallback
  attribute_string_value (some (text s)) fallback = s
  attribute_string_value (some (number f)) fallback = h.format_f f
  attribute_string_value (some (boolean b)) fallback = format_bool b
  attribute_string_value (some (other o)) fallback = h.sprint o

  unfoldable pub node_id : Span h → Bytes
  node_id span =
      stable_node_id h span.kind
        (attribute_string_value (find identity_key span.attributes) span.name)
        (string_attribute span framework_key)

  unfoldable pub node_name : Span h → Bytes
  node_name span =
      let class_name = string_attribute span class_key in
      if (bytes_eq span.kind controller || bytes_eq span.kind service) && not (null class_name)
      then class_name
      else first_non_empty (string_attribute span topology_name_key) span.name

  unfoldable pub new_node : Span h → Node h
  new_node span = record {
    id = node_id span;
    name = node_name span;
    kind = span.kind;
    framework = string_attribute span framework_key;
    operation =
        first_non_empty (string_attribute span method_key) (string_attribute span operation_key);
    metrics = no_metric h;
  }

  -- `resolveNode` with `create`: the node, which the caller records at once and stores.
  unfoldable pub resolve_or_create : Engine h → Span h → Option (Node h)
  resolve_or_create e span =
      if not (has span.kind topology_kinds) then none else (elim (find (node_id span) e.nodes) [
        | some node ↦ some node
        | none ↦ some (new_node span)
      ])

  -- `resolveNode` without `create`.
  unfoldable pub resolve_node : Engine h → Span h → Option (Node h)
  resolve_node e span =
      if not (has span.kind topology_kinds) then none else find (node_id span) e.nodes

  abbrev pub is_error : Span h → Bool
  is_error span = bytes_eq span.status error_status

  -- The trace behind the span: `spanOrder` lists a span once.
  unfoldable pub join_trace : ℕ → Span h → Option (Trace h) → Trace h
  join_trace clock span none = record {
    trace_id = span.trace_id;
    spans = (span.span_id, span) ∷ [];
    span_order = span.span_id ∷ [];
    last_updated_at = clock;
    path_contributions = [];
  }
  join_trace clock span (some trace) = record trace {
    spans = assign span.span_id span trace.spans;
    span_order = elim (find span.span_id trace.spans) [
      | none ↦ trace.span_order ++ (span.span_id ∷ [])
      | some s ↦ trace.span_order
    ];
    last_updated_at = clock;
  }

  -- The node's call.
  unfoldable pub count_node : Span h → Option (Node h) → Engine h → Engine h
  count_node span none e = e
  count_node span (some node) e = record e {
    nodes =
        assign node.id
          (record node {
            metrics =
                record_metric h e.max_latency_samples node.metrics span.duration (is_error span);
          })
          e.nodes;
    active_nodes = add_new node.id e.active_nodes;
  }

  -- The first loop's body; `active_nodes` collects the nodes of this call.
  unfoldable pub admit_span : Span h → Engine h → Engine h
  admit_span span e = elim (has span.span_id e.seen_span_ids) [
    | true ↦ e
    | false ↦
        let clock = tick e.clock in
        count_node span (resolve_or_create e span) (record e {
          seen_span_ids = span.span_id ∷ e.seen_span_ids;
          traces =
              assign span.trace_id (join_trace clock span (find span.trace_id e.traces)) e.traces;
          clock = clock;
        })
  ]

  unfoldable pub admit_spans : List (Span h) → Engine h → Engine h
  admit_spans [] e = e
  admit_spans (span ∷ spans) e = admit_spans spans (admit_span span e)

  -- The traces that a batch touches, in order.
  unfoldable pub touched_traces : List (Span h) → List Bytes → List Bytes
  touched_traces [] touched = touched
  touched_traces (span ∷ spans) touched = touched_traces spans (add_new span.trace_id touched)

  -- `findNearestParentNode`, on fuel.
  unfoldable pub nearest_parent_node : ℕ → Engine h → Trace h → List Bytes → Bytes → Walk (Node h)
  nearest_parent_node zero e trace visited id = out_of_fuel
  nearest_parent_node (suc fuel) e trace visited id = elim (find id trace.spans) [
    | none ↦ ended none
    | some current ↦ elim (has current.span_id visited) [
      | true ↦ ended none
      | false ↦ elim (resolve_node e current) [
        | some node ↦ ended (some node)
        | none ↦ elim (null current.parent_span_id) [
          | true ↦ ended none
          | false ↦
              nearest_parent_node fuel e trace (current.span_id ∷ visited) current.parent_span_id
        ]
      ]
    ]
  ]

  -- The call along an edge, which is new or known.
  unfoldable pub count_edge : Span h → Node h → Node h → Engine h → Engine h
  count_edge child parent_node child_node e =
      let id = stable_edge_id parent_node.id child_node.id in
      let edge : Edge h = elim (find id e.edges) [
        | some known ↦ known
        | none ↦ record {
          id = id;
          source = parent_node.id;
          target = child_node.id;
          metrics = no_metric h;
        }
      ] in
      record e {
        edges =
            assign id
              (record edge {
                metrics =
                    record_metric h e.max_latency_samples edge.metrics child.duration
                      (is_error child);
              })
              e.edges;
        seen_edge_span_ids = edge_span_key child.trace_id child.span_id ∷ e.seen_edge_span_ids;
        active_edges = add_new id e.active_edges;
      }

  unfoldable pub link_nodes : Span h → Option (Node h) → Option (Node h) → Engine h → Engine h
  link_nodes child (some parent_node) (some child_node) e =
      if bytes_eq parent_node.id child_node.id then e else count_edge child parent_node child_node e
  link_nodes child _ _ e = e

  -- The second loop's body, for one span of a trace.
  unfoldable pub link_span : Trace h → Span h → Engine h → Engine h
  link_span trace child e =
      if null child.parent_span_id
        || has (edge_span_key child.trace_id child.span_id) e.seen_edge_span_ids
      then e
      else link_nodes child
          (found_by (nearest_parent_node (length trace.spans + 1) e trace [] child.parent_span_id))
          (resolve_node e child) e

  unfoldable pub link_trace : Trace h → List Bytes → Engine h → Engine h
  link_trace trace [] e = e
  link_trace trace (id ∷ ids) e = elim (find id trace.spans) [
    | none ↦ link_trace trace ids e
    | some child ↦ link_trace trace ids (link_span trace child e)
  ]

  unfoldable pub link_touched : List Bytes → Engine h → Engine h
  link_touched [] e = e
  link_touched (id ∷ ids) e = elim (find id e.traces) [
    | none ↦ link_touched ids e
    | some trace ↦ link_touched ids (link_trace trace trace.span_order e)
  ]
