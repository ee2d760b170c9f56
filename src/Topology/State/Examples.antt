-- ===== src/Topology/State/Examples.antt =====
-- The checkpoint of an engine with one node and one trace, through a codec that knows its state.
use node_flow.Prelude.{
  ◌≡◌, ◌⊎◌, refl, subst, true, false, find, Option, none, some, some-injective, List, [], ◌∷◌, Bool,
  ok, err, arith,
}
use node_flow.Bytes.{Bytes}
use node_flow.Topology.{Span, Node, Trace, Engine}
use node_flow.Topology.Plain.{host}
use node_flow.Topology.Metrics.{no_metric}
use node_flow.Topology.Ingest.{service}
use node_flow.Topology.Batch.{Options, new}
use node_flow.Topology.Whole.{Call, spans_came, answer_all}
use node_flow.Topology.State.Recovered.{open_state_store-answer_all}
use node_flow.Topology.State.{PersistedState, persisted_state, restore_state}
use node_flow.Topology.State.RoundTrip.{IsWhole, IsStored, IsSame, restore_state-persisted_state}
use node_flow.Topology.State.Saved.{
  Files, Step, sync_directory, SaveError, with_checksum, save, open_state_store, quiet, Readable,
  Summed, open_state_store-save,
}

abbrev some_options : Options
some_options = record {
  application_name = b'x' ∷ [];
  node_version = b'2' ∷ [];
  max_recent_traces = 4;
  max_latency_samples = 3;
  max_runtime_paths = 2;
}

abbrev one_span : Span host
one_span = record {
  trace_id = b't' ∷ [];
  span_id = b'a' ∷ [];
  parent_span_id = [];
  name = b'a' ∷ [];
  kind = service;
  start_time = 1;
  duration = 5;
  status = [];
  attributes = [];
}

abbrev one_trace : Trace host
one_trace = record {
  trace_id = b't' ∷ [];
  spans = (b'a' ∷ [], one_span) ∷ [];
  span_order = (b'a' ∷ []) ∷ [];
  last_updated_at = 1;
  path_contributions = [];
}

abbrev one_node : Node host
one_node = record {
  id = b'n' ∷ [];
  name = b'a' ∷ [];
  kind = service;
  framework = [];
  operation = [];
  metrics = no_metric host;
}

abbrev one_engine : Engine host
one_engine = record (new host some_options) {
  nodes = (b'n' ∷ [], one_node) ∷ [];
  traces = (b't' ∷ [], one_trace) ∷ [];
  seen_span_ids = (b'a' ∷ []) ∷ [];
  clock = 1;
  revision = 1;
}

one_trace-IsWhole : IsWhole host one_trace
unfolding find
one_trace-IsWhole = record { in_order = refl; one_each = (refl, tt); spans = ((refl, refl), tt) }

one_engine-IsStored : IsStored host one_engine
unfolding new find
one_engine-IsStored = record {
  one_node = (refl, tt);
  nodes = ((refl, refl), tt);
  one_edge = tt;
  edges = tt;
  one_path = tt;
  paths = tt;
  one_trace = (refl, tt);
  traces = ((refl, refl, one_trace-IsWhole), tt);
  version = refl;
  traces_positive = omega arith;
  samples_positive = omega arith;
  paths_positive = omega arith;
}

restore_state-persisted_state_example :
    (f : Engine host) × (restore_state host (persisted_state host one_engine) some_options ≡ ok f)
    × IsSame host some_options one_engine f
restore_state-persisted_state_example =
    restore_state-persisted_state host one_engine some_options one_engine-IsStored

abbrev one_state : PersistedState host
one_state = persisted_state host one_engine

one_unmarshal : Bytes → Option (PersistedState host)
one_unmarshal (c ∷ []) = some (record one_state { checksum = c })
one_unmarshal _ = none

abbrev one_codec : Files host
one_codec = record {
  marshal = λ s. some (s.checksum ∷ []);
  unmarshal = one_unmarshal;
  checksum = λ b. 7;
}

one_state-Readable : Readable one_codec one_state
unfolding Readable one_unmarshal
one_state-Readable c b same =
    subst (λ (d : Bytes). one_unmarshal d ≡ some (with_checksum one_codec c one_state))
      (some-injective (c ∷ []) b same) refl

one_state-Summed : Summed one_codec one_state
unfolding Summed
one_state-Summed b same = refl

-- The last step of `Save` fails.
abbrev late_failure : Step → Bool
late_failure sync_directory = true
late_failure _ = false

open_state_store-save_example :
    (((x : SaveError) × (save one_codec late_failure one_engine none ≡ (err x, none)))
      ⊎ ((f : Engine host) × (open_state_store one_codec
              (quiet one_codec ((save one_codec late_failure one_engine none).1))
              some_options
            ≡ ok f)
          × IsSame host some_options one_engine f))
open_state_store-save_example =
    open_state_store-save one_codec late_failure one_engine none some_options one_engine-IsStored
      one_state-Readable one_state-Summed

abbrev one_call : List (Call host)
one_call = spans_came (one_span ∷ []) ∷ []

abbrev reached : Engine host
reached = answer_all host one_call (new host some_options)

abbrev reached_state : PersistedState host
reached_state = persisted_state host reached

reached_unmarshal : Bytes → Option (PersistedState host)
reached_unmarshal (c ∷ []) = some (record reached_state { checksum = c })
reached_unmarshal _ = none

abbrev reached_codec : Files host
reached_codec = record {
  marshal = λ s. some (s.checksum ∷ []);
  unmarshal = reached_unmarshal;
  checksum = λ b. 7;
}

reached_state-Readable : Readable reached_codec reached_state
unfolding Readable reached_unmarshal
reached_state-Readable c b same =
    subst (λ (d : Bytes). reached_unmarshal d ≡ some (with_checksum reached_codec c reached_state))
      (some-injective (c ∷ []) b same) refl

reached_state-Summed : Summed reached_codec reached_state
unfolding Summed
reached_state-Summed b same = refl

open_state_store-answer_all_example :
    (((x : SaveError) × (save reached_codec late_failure reached none ≡ (err x, none)))
      ⊎ ((f : Engine host) × (open_state_store reached_codec
              (quiet reached_codec ((save reached_codec late_failure reached none).1))
              some_options
            ≡ ok f)
          × IsSame host some_options reached f))
open_state_store-answer_all_example =
    open_state_store-answer_all host reached_codec some_options some_options one_call late_failure
      none (((refl, refl), tt), tt) reached_state-Readable reached_state-Summed
