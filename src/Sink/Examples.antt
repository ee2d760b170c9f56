-- ===== src/Sink/Examples.antt =====
-- The sink takes one envelope with one span, on a fresh engine without a checkpoint.
use node_flow.Prelude.{
  ◌≡◌, refl, subst, false, find, assign, Option, none, some, some-injective, [], ◌∷◌, ok,
}
use node_flow.Bytes.{Bytes}
use node_flow.Telemetry.{Envelope}
use node_flow.Telemetry.Validate.{Gauges}
use node_flow.Topology.{Span, Engine}
use node_flow.Topology.Plain.{host}
use node_flow.Topology.Ingest.{service}
use node_flow.Topology.Batch.{Options, new, ingest, register_application}
use node_flow.Topology.State.{PersistedState, persisted_state}
use node_flow.Topology.State.Recovered.{new-IsStored}
use node_flow.Topology.State.Saved.{
  Files, first_failed, write_file, save, with_checksum, Readable, Summed,
}
use node_flow.Sink.{
  SinkIo, sorted_keys, insert_key, group_spans, group_runtimes, join_group, checkpoint, run_groups,
  run_runtimes, consume_batch,
}
use node_flow.Sink.Durable.{Holds, runtime_states, group_states, batch_states, consume_batch-Holds}

abbrev plain_options : Options
plain_options = record {
  application_name = b'x' ∷ [];
  node_version = b'2' ∷ [];
  max_recent_traces = 4;
  max_latency_samples = 3;
  max_runtime_paths = 2;
}

abbrev sunk_span : Span host
sunk_span = record {
  trace_id = b't' ∷ [];
  span_id = b'a' ∷ [];
  parent_span_id = [];
  name = b'a' ∷ [];
  kind = service;
  start_time = 1;
  duration = 5;
  status = [];
  attributes = [];
}

abbrev sunk_envelope : Envelope (Span host) (Gauges host)
sunk_envelope = record {
  protocol_version = [];
  span_batch =
      some (record { service_name = b's' ∷ []; node_version = []; spans = sunk_span ∷ [] });
  runtime_metrics = none;
}

abbrev fresh_engine : Engine host
fresh_engine = new host plain_options

abbrev sunk_engine : Engine host
sunk_engine = ingest host (sunk_span ∷ []) (register_application host (b's' ∷ []) [] fresh_engine)

abbrev sunk_state : PersistedState host
sunk_state = persisted_state host sunk_engine

sunk_unmarshal : Bytes → Option (PersistedState host)
sunk_unmarshal (c ∷ []) = some (record sunk_state { checksum = c })
sunk_unmarshal _ = none

abbrev sunk_codec : Files host
sunk_codec = record {
  marshal = λ s. some (s.checksum ∷ []);
  unmarshal = sunk_unmarshal;
  checksum = λ b. 7;
}

sunk_state-Readable : Readable sunk_codec sunk_state
unfolding Readable sunk_unmarshal
sunk_state-Readable c b same =
    subst (λ (d : Bytes). sunk_unmarshal d ≡ some (with_checksum sunk_codec c sunk_state))
      (some-injective (c ∷ []) b same) refl

sunk_state-Summed : Summed sunk_codec sunk_state
unfolding Summed
sunk_state-Summed b same = refl

abbrev calm : SinkIo
calm = record { is_done = λ n. false; fails = λ n s. false }

sunk :
    (consume_batch (some sunk_codec) calm (sunk_envelope ∷ []) fresh_engine none).0
    ≡ ok ((0 ∷ [], sunk_engine.revision) ∷ [])
unfolding consume_batch run_groups run_runtimes checkpoint save write_file first_failed sorted_keys
    insert_key group_spans group_runtimes join_group find assign
sunk = refl

consume_batch-Holds_example :
    Holds sunk_codec plain_options
      ((consume_batch (some sunk_codec) calm (sunk_envelope ∷ []) fresh_engine none).1)
      ((consume_batch (some sunk_codec) calm (sunk_envelope ∷ []) fresh_engine none).2)
unfolding batch_states group_states runtime_states sorted_keys insert_key group_spans group_runtimes
    join_group find assign
consume_batch-Holds_example =
    consume_batch-Holds sunk_codec plain_options calm (sunk_envelope ∷ []) fresh_engine none
      ((0 ∷ [], sunk_engine.revision) ∷ []) refl (((refl, refl), tt), tt)
      (new-IsStored host plain_options) ((sunk_state-Readable, sunk_state-Summed), tt) sunk
