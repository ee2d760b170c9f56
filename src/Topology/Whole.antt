-- ===== src/Topology/Whole.antt =====
-- runtime/go/internal/topology/engine.go: `New`, every operation that changes the engine, and its
-- invariant.
use node_flow.Prelude.{
  ℕ, ◌≤◌, refl, inl, inr, Option, List, [], ◌∷◌, length, find, Option-cases, arith,
}
use node_flow.Bytes.{Bytes}
use node_flow.Topology.{Host, Span, RuntimeMetrics, Engine}
use node_flow.Topology.Ingest.{touched_traces, admit_spans, link_touched}
use node_flow.Topology.Aggregate.{aggregate}
use node_flow.Topology.Batch.{
  Options, or_default, new, register_application, aggregate_touched, start_batch, ingest,
  update_runtime,
}
use node_flow.Topology.Sound.{Limits, IsEngine}
use node_flow.Topology.Linked.{admit_spans-IsEngine, link_touched-IsEngine}
use node_flow.Topology.Weighed.{aggregate-IsEngine}
use node_flow.Topology.Trimmed.{trim_traces-IsEngine, length-trim_traces}

-- What is asked of the engine, and by whom.
pub data Call (h : Host) : Type 0 where
  spans_came : List (Span h) → Call h
  metrics_came : RuntimeMetrics h → Call h
  application_came : Bytes → Bytes → Call h

-- The limits behind the options, with the defaults of `New`.
abbrev pub limits_of : Options → Limits
limits_of options = record {
  traces = or_default 50 options.max_recent_traces;
  samples = or_default 1000 options.max_latency_samples;
  paths = or_default 1000 options.max_runtime_paths;
}

or_default-positive : (d n : ℕ) → 1 ≤ d → 1 ≤ or_default d n
or_default-positive d n e = ground arith

module _ (h : Host) where
  unfoldable pub answer : Call h → Engine h → Engine h
  answer (spans_came spans) e = ingest h spans e
  answer (metrics_came metrics) e = update_runtime h metrics e
  answer (application_came name version) e = register_application h name version e

  unfoldable pub answer_all : List (Call h) → Engine h → Engine h
  answer_all [] e = e
  answer_all (c ∷ cs) e = answer_all cs (answer c e)

  module _ (limits : Limits) where
    aggregate_touched-IsEngine :
        (ids : List Bytes) (e : Engine h)
        → 1 ≤ limits.paths
        → IsEngine h limits e
        → IsEngine h limits (aggregate_touched h ids e)
    unfolding aggregate_touched
    aggregate_touched-IsEngine [] e room fine = fine
    aggregate_touched-IsEngine (id ∷ ids) e room fine = elim (Option-cases (find id e.traces)) [
      | inl missing ↦ rw (aggregate_touched, missing) (aggregate_touched-IsEngine ids e room fine)
      | inr (trace, found) ↦
          rw (aggregate_touched, found)
            (aggregate_touched-IsEngine ids (aggregate h trace e) room
              (aggregate-IsEngine h limits trace e room fine))
    ]

    -- The invariant does not read the other fields.
    pub same_maps-IsEngine :
        (e : Engine h) (revision : ℕ) (runtime : Option (RuntimeMetrics h)) (names : List Bytes)
        (version : Bytes) (active_nodes active_edges : List Bytes)
        → IsEngine h limits e
        → IsEngine h limits (record e {
          revision = revision;
          runtime = runtime;
          application_names = names;
          node_version = version;
          active_nodes = active_nodes;
          active_edges = active_edges;
        })
    same_maps-IsEngine e revision runtime names version active_nodes active_edges fine = record {
      trace_limit = fine.trace_limit;
      sample_limit = fine.sample_limit;
      path_limit = fine.path_limit;
      one_trace_each = fine.one_trace_each;
      traces = fine.traces;
      nodes = fine.nodes;
      edges = fine.edges;
      paths = fine.paths;
      paths_le = fine.paths_le;
    }

    pub admitted-IsEngine :
        (spans : List (Span h)) (e : Engine h)
        → IsEngine h limits e
        → IsEngine h limits (admit_spans h spans (start_batch h e))
    unfolding start_batch
    admitted-IsEngine spans e fine =
        admit_spans-IsEngine h limits spans _ (same_maps-IsEngine e _ _ _ _ _ _ fine)

    -- The batch before its traces are trimmed.
    pub linked-IsEngine :
        (spans : List (Span h)) (e : Engine h)
        → 1 ≤ limits.paths
        → IsEngine h limits e
        → IsEngine h limits (
            aggregate_touched h
              (touched_traces h spans [])
              (link_touched h (touched_traces h spans []) (admit_spans h spans (start_batch h e))))
    linked-IsEngine spans e room fine =
        aggregate_touched-IsEngine (touched_traces h spans []) _ room (
          link_touched-IsEngine h limits (touched_traces h spans []) _
            (admitted-IsEngine spans e fine))

    -- Under a positive limit of paths, `ingest` keeps the engine's invariant: one trace stands under
    -- each identifier, nodes and edges stand under their own identifiers, edges join two different
    -- known nodes, no metric has more errors than calls on a node or an edge, no window holds more
    -- samples than the limit, and no more paths are kept than the limit. Behind it no more traces are
    -- kept than the limit.
    pub ingest-IsEngine :
        (spans : List (Span h)) (e : Engine h)
        → 1 ≤ limits.paths
        → IsEngine h limits e
        → IsEngine h limits (ingest h spans e)
          × (length ((ingest h spans e).traces) ≤ limits.traces)
    unfolding ingest
    ingest-IsEngine spans e room fine =
        let linked = linked-IsEngine spans e room fine in
        (
          same_maps-IsEngine _ _ _ _ _ _ _ (trim_traces-IsEngine h limits _ linked),
          length-trim_traces h limits _ linked,
        )

    answer-IsEngine :
        (c : Call h) (e : Engine h)
        → 1 ≤ limits.paths
        → IsEngine h limits e
        → length e.traces ≤ limits.traces
        → IsEngine h limits (answer c e) × (length ((answer c e).traces) ≤ limits.traces)
    unfolding answer update_runtime register_application
    answer-IsEngine (spans_came spans) e room fine bound = ingest-IsEngine spans e room fine
    answer-IsEngine (metrics_came metrics) e room fine bound =
        (same_maps-IsEngine e _ _ _ _ _ _ fine, bound)
    answer-IsEngine (application_came name version) e room fine bound =
        (same_maps-IsEngine e _ _ _ _ _ _ fine, bound)

    answers-IsEngine :
        (cs : List (Call h)) (e : Engine h)
        → 1 ≤ limits.paths
        → IsEngine h limits e
        → length e.traces ≤ limits.traces
        → IsEngine h limits (answer_all cs e) × (length ((answer_all cs e).traces) ≤ limits.traces)
    unfolding answer_all
    answers-IsEngine [] e room fine bound = (fine, bound)
    answers-IsEngine (c ∷ cs) e room fine bound =
        let next = answer-IsEngine c e room fine bound in
        answers-IsEngine cs (answer c e) room (next.0) (next.1)

  pub new-IsEngine : (options : Options) → IsEngine h (limits_of options) (new h options)
  unfolding new
  new-IsEngine options = record {
    trace_limit = refl;
    sample_limit = refl;
    path_limit = refl;
    one_trace_each = tt;
    traces = tt;
    nodes = tt;
    edges = tt;
    paths = tt;
    paths_le = omega arith;
  }

  -- An engine made with any options, behind any sequence of batches of spans, runtime metrics and
  -- registrations, is sound under the limits of its options, and keeps no more traces than their limit.
  pub answer_all-IsEngine :
      (options : Options) (cs : List (Call h))
      → IsEngine h (limits_of options) (answer_all cs (new h options))
        × (length ((answer_all cs (new h options)).traces) ≤ (limits_of options).traces)
  unfolding new
  answer_all-IsEngine options cs =
      answers-IsEngine (limits_of options) cs (new h options)
        (or_default-positive 1000 options.max_runtime_paths (omega arith)) (new-IsEngine options)
        (omega arith)
