-- ===== src/Sink.antt =====
-- runtime/go/internal/sink/topology.go: the sink that hands the spans of a batch to the topology engine and
-- saves the engine. The publisher and the metrics of the collector are left out.

mod Groups
pub mod Durable
mod Examples
use node_flow.Prelude.{
  ℕ, suc, ◌+◌, Bool, true, false, not, ◌||◌, Option, none, some, List, [], ◌∷◌, ◌++◌, find, assign,
  if◌then◌else◌, Result, ok, err, ◌>>=◌,
}
use node_flow.Bytes.{Bytes}
use node_flow.Telemetry.{Envelope, SpanBatch, RuntimeMetrics}
use node_flow.Telemetry.Validate.{Gauges}
use node_flow.Topology
use node_flow.Topology.{Host, Span, Engine}
use node_flow.Topology.Batch.{register_application, ingest, update_runtime}
use node_flow.Topology.State.{string_before}
use node_flow.Topology.State.Saved.{Files, Step, SaveError, save}

-- `topologySpanGroup`.
pub record SpanGroup (h : Host) : Type 0 where
  pub service_name : Bytes
  pub node_version : Bytes
  pub spans : List (Span h)
  pub indexes : List ℕ

pub data SinkError : Type 0 where
  cancelled : SinkError
  not_saved : SaveError → SinkError

-- Whether the context is done at a step, and which steps of a save fail there.
pub record SinkIo : Type 0 where
  pub is_done : ℕ → Bool
  pub fails : ℕ → Step → Bool

-- The values of a map by the order of `sortedKeys`.
module _ {V : Type 0} where
  unfoldable pub insert_key : Bytes → V → List (Bytes × V) → List (Bytes × V)
  insert_key k v [] = (k, v) ∷ []
  insert_key k v ((j, w) ∷ m) =
      let later = insert_key k v m in
      if string_before j k then (j, w) ∷ later else (k, v) ∷ (j, w) ∷ m

  unfoldable pub sorted_keys : List (Bytes × V) → List (Bytes × V)
  sorted_keys [] = []
  sorted_keys ((k, v) ∷ m) = insert_key k v (sorted_keys m)

-- What a run leaves: the revisions of the groups' envelopes or an error, the engine and the file.
abbrev pub Outcomes : Type 0
Outcomes = Result SinkError (List (List ℕ × ℕ))

abbrev pub with_outcome : List ℕ → ℕ → Outcomes → Outcomes
with_outcome indexes revision outcomes = outcomes >>= (λ os. ok ((indexes, revision) ∷ os))

module _ {h : Host} where
  abbrev pub group_key : SpanBatch (Span h) → Bytes
  group_key batch = batch.service_name ++ (0 ∷ batch.node_version)

  unfoldable pub join_group : ℕ → SpanBatch (Span h) → Option (SpanGroup h) → SpanGroup h
  join_group index batch none = record {
    service_name = batch.service_name;
    node_version = batch.node_version;
    spans = batch.spans;
    indexes = index ∷ [];
  }
  join_group index batch (some group) = record group {
    spans = group.spans ++ batch.spans;
    indexes = group.indexes ++ (index ∷ []);
  }

  -- The groups of the loop over the envelopes.
  unfoldable pub group_spans :
      ℕ
      → List (Envelope (Span h) (Gauges h))
      → List (Bytes × SpanGroup h)
      → List (Bytes × SpanGroup h)
  group_spans index [] groups = groups
  group_spans index (e ∷ es) groups = elim e.span_batch [
    | none ↦ group_spans (index + 1) es groups
    | some batch ↦
        group_spans (index + 1) es
          (assign (group_key batch) (join_group index batch (find (group_key batch) groups)) groups)
  ]

  -- The later of two metrics of a service.
  unfoldable pub latest_metrics :
      RuntimeMetrics (Gauges h) → Option (RuntimeMetrics (Gauges h)) → RuntimeMetrics (Gauges h)
  latest_metrics metrics none = metrics
  latest_metrics metrics (some current) =
      if h.lt_f current.gauges.timestamp metrics.gauges.timestamp
        || h.eq_f current.gauges.timestamp metrics.gauges.timestamp
      then metrics
      else current

  unfoldable pub group_runtimes :
      List (Envelope (Span h) (Gauges h))
      → List (Bytes × RuntimeMetrics (Gauges h))
      → List (Bytes × RuntimeMetrics (Gauges h))
  group_runtimes [] runtimes = runtimes
  group_runtimes (e ∷ es) runtimes = elim e.runtime_metrics [
    | none ↦ group_runtimes es runtimes
    | some metrics ↦ group_runtimes es (
        assign metrics.service_name (latest_metrics metrics (find metrics.service_name runtimes))
          runtimes)
  ]

  abbrev pub engine_metrics : RuntimeMetrics (Gauges h) → Topology.RuntimeMetrics h
  engine_metrics m = record {
    timestamp = m.gauges.timestamp;
    service_name = m.service_name;
    rss_bytes = m.gauges.rss_bytes;
    heap_used_bytes = m.gauges.heap_used_bytes;
    heap_total_bytes = m.gauges.heap_total_bytes;
    cpu_percent = m.gauges.cpu_percent;
    event_loop_utilization = m.gauges.event_loop_utilization;
    uptime_seconds = m.gauges.uptime_seconds;
  }

  -- `checkpoint`; without a state store nothing is saved.
  unfoldable pub checkpoint :
      Option (Files h) → (Step → Bool) → Engine h → Option Bytes → Option SinkError × Option Bytes
  checkpoint none fails e file = (none, file)
  checkpoint (some files) fails e file =
      let saved = save files fails e file in
      elim (saved.0) [ ok n ↦ (none, saved.1) | err x ↦ (some (not_saved x), saved.1) ]

  -- The loop over the runtime metrics.
  unfoldable pub run_runtimes :
      Option (Files h)
      → SinkIo
      → ℕ
      → List (Bytes × RuntimeMetrics (Gauges h))
      → Engine h
      → Option Bytes
      → Outcomes × Engine h × Option Bytes
  run_runtimes store io n [] e file = (ok [], e, file)
  run_runtimes store io n ((service, metrics) ∷ rest) e file =
      let updated = update_runtime h (engine_metrics metrics) e in
      let saved = checkpoint store (io.fails n) updated file in
      let more = run_runtimes store io (n + 1) rest updated (saved.1) in
      elim (io.is_done n) [
        | true ↦ (err cancelled, e, file)
        | false ↦ elim (saved.0) [ some x ↦ (err x, updated, saved.1) | none ↦ more ]
      ]

  -- The loop over the groups, and the other behind it.
  unfoldable pub run_groups :
      Option (Files h)
      → SinkIo
      → ℕ
      → List (Bytes × SpanGroup h)
      → List (Bytes × RuntimeMetrics (Gauges h))
      → Engine h
      → Option Bytes
      → Outcomes × Engine h × Option Bytes
  run_groups store io n [] runtimes e file = run_runtimes store io n runtimes e file
  run_groups store io n ((key, group) ∷ groups) runtimes e file =
      let ingested =
        ingest h group.spans (register_application h group.service_name group.node_version e) in
      let saved = checkpoint store (io.fails n) ingested file in
      let more = run_groups store io (n + 1) groups runtimes ingested (saved.1) in
      elim (io.is_done n) [
        | true ↦ (err cancelled, e, file)
        | false ↦ elim (saved.0) [
          | some x ↦ (err x, ingested, saved.1)
          | none ↦ (with_outcome group.indexes ingested.revision (more.0), more.1, more.2)
        ]
      ]

  unfoldable pub consume_batch :
      Option (Files h)
      → SinkIo
      → List (Envelope (Span h) (Gauges h))
      → Engine h
      → Option Bytes
      → Outcomes × Engine h × Option Bytes
  consume_batch store io envelopes e file =
      let run =
        run_groups store io 1 (sorted_keys (group_spans 0 envelopes []))
          (sorted_keys (group_runtimes envelopes [])) e file in
      if io.is_done 0 then (err cancelled, e, file) else run
