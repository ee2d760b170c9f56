-- ===== src/Sink/Durable.antt =====
-- runtime/go/internal/sink/topology.go: theorems on `ConsumeBatch` and the checkpoint.
use node_flow.Prelude.{
  ℕ, ◌+◌, ◌≡◌, refl, ap, ◌⊎◌, inl, inr, Bool, true, false, Option, none, some, List, [], ◌∷◌, All,
  null, arith, Entries, Bool-cases, Option-cases, Result-cases, Result, ok, err,
}
use node_flow.Bytes.{Bytes}
use node_flow.Telemetry.{Envelope, RuntimeMetrics}
use node_flow.Telemetry.Validate.{Gauges}
use node_flow.Topology.{Host, Span, Engine}
use node_flow.Topology.Batch.{Options, register_application, ingest, update_runtime}
use node_flow.Topology.State.{PersistedState, persisted_state}
use node_flow.Topology.State.RoundTrip.{IsStored, IsSame}
use node_flow.Topology.State.Saved.{
  Files, Step, SaveError, save, open_state_store, quiet, Readable, Summed, open_state_store-save,
}
use node_flow.Topology.State.Recovered.{ingest-IsStored}
use node_flow.Sink.{
  SpanGroup, SinkIo, sorted_keys, group_spans, group_runtimes, engine_metrics, checkpoint, Outcomes,
  with_outcome, run_runtimes, run_groups, consume_batch,
}
use node_flow.Sink.Groups.{
  sorted_keys-Entries, sorted_keys-filled, IsNamed, IsGroup, carries, group_spans-IsGroup,
  carries-filled, metrics-IsStored, application-IsStored,
}

module _ {h : Host} where
  -- The states that a run saves, where no save fails.
  unfoldable pub runtime_states :
      List (Bytes × RuntimeMetrics (Gauges h)) → Engine h → List (PersistedState h)
  runtime_states [] e = []
  runtime_states ((service, metrics) ∷ rest) e =
      let updated = update_runtime h (engine_metrics metrics) e in
      persisted_state h updated ∷ runtime_states rest updated

  unfoldable pub group_states :
      List (Bytes × SpanGroup h)
      → List (Bytes × RuntimeMetrics (Gauges h))
      → Engine h
      → List (PersistedState h)
  group_states [] runtimes e = runtime_states runtimes e
  group_states ((key, group) ∷ groups) runtimes e =
      let ingested =
        ingest h group.spans (register_application h group.service_name group.node_version e) in
      persisted_state h ingested ∷ group_states groups runtimes ingested

  unfoldable pub batch_states :
      List (Envelope (Span h) (Gauges h)) → Engine h → List (PersistedState h)
  batch_states envelopes e =
      group_states (sorted_keys (group_spans 0 envelopes []))
        (sorted_keys (group_runtimes envelopes [])) e

outcomes-ok :
    (indexes : List ℕ) (revision : ℕ) (r : Outcomes) (os : List (List ℕ × ℕ))
    → with_outcome indexes revision r ≡ ok os
    → (ps : List (List ℕ × ℕ)) × (r ≡ ok ps)
outcomes-ok indexes revision (ok ps) os e = (ps, refl)
outcomes-ok indexes revision (err x) os e = absurd (cc e)

module _ {h : Host} (files : Files h) (later : Options) where
  -- The file opens to the engine.
  abbrev pub Holds : Engine h → Option Bytes → Type 0
  Holds e file =
      (f : Engine h) × (open_state_store files (quiet files file) later ≡ ok f) × IsSame h later e f

  -- The state is read back from its encoding, whose checksum is not 0.
  abbrev pub IsEncoded : PersistedState h → Type 0
  IsEncoded s = Readable files s × Summed files s

  checkpoint-Holds :
      (fails : Step → Bool) (e : Engine h) (file : Option Bytes)
      → IsStored h e
      → IsEncoded (persisted_state h e)
      → (checkpoint (some files) fails e file).0 ≡ none
      → Holds e ((checkpoint (some files) fails e file).1)
  unfolding checkpoint
  checkpoint-Holds fails e file stored encoded done =
      elim (Result-cases ((save files fails e file).0)) [
        | inl (x, failed) ↦ absurd (cc (rw (checkpoint, failed) at done))
        | inr (n, saved) ↦
            elim (open_state_store-save files fails e file later stored (encoded.0) (encoded.1)) [
              | inl (x, failed) ↦
                  absurd (cc (saved, ap (λ (p : Result SaveError ℕ × Option Bytes). p.0) failed))
              | inr opened ↦ rw (checkpoint, saved) opened
            ]
      ]

  run_runtimes-Holds :
      (io : SinkIo) (n : ℕ) (runtimes : List (Bytes × RuntimeMetrics (Gauges h))) (e : Engine h)
      (file : Option Bytes) (os : List (List ℕ × ℕ))
      → IsStored h e
      → Holds e file ⊎ (null runtimes ≡ false)
      → All IsEncoded (runtime_states runtimes e)
      → (run_runtimes (some files) io n runtimes e file).0 ≡ ok os
      → Holds
          ((run_runtimes (some files) io n runtimes e file).1)
          ((run_runtimes (some files) io n runtimes e file).2)
  unfolding run_runtimes runtime_states
  run_runtimes-Holds io n [] e file os stored (inl holds) encoded done = holds
  run_runtimes-Holds io n [] e file os stored (inr some_runtime) encoded done =
      absurd (ground (arith, some_runtime))
  run_runtimes-Holds io n ((service, metrics) ∷ rest) e file os stored holds (encoded, all) done =
      let updated = update_runtime h (engine_metrics metrics) e in
      let stored2 = metrics-IsStored (engine_metrics metrics) e stored in
      elim (Bool-cases (io.is_done n)) [
        | inl over ↦ absurd (cc (rw (run_runtimes, over) at done))
        | inr going ↦ elim (Option-cases ((checkpoint (some files) (io.fails n) updated file).0)) [
          | inr (x, failed) ↦ absurd (cc (rw (run_runtimes, going, failed) at done))
          | inl saved ↦
              rw (run_runtimes, going, saved)
                (run_runtimes-Holds io (n + 1) rest updated _ os stored2
                  (inl (checkpoint-Holds (io.fails n) updated file stored2 encoded saved)) all
                  (rw (run_runtimes, going, saved) at done))
        ]
      ]

  run_groups-Holds :
      (io : SinkIo) (n : ℕ) (groups : List (Bytes × SpanGroup h))
      (runtimes : List (Bytes × RuntimeMetrics (Gauges h))) (e : Engine h) (file : Option Bytes)
      (os : List (List ℕ × ℕ))
      → Entries IsGroup groups
      → IsStored h e
      → Holds e file ⊎ ((null groups ≡ false) ⊎ (null runtimes ≡ false))
      → All IsEncoded (group_states groups runtimes e)
      → (run_groups (some files) io n groups runtimes e file).0 ≡ ok os
      → Holds
          ((run_groups (some files) io n groups runtimes e file).1)
          ((run_groups (some files) io n groups runtimes e file).2)
  unfolding run_groups group_states
  run_groups-Holds io n [] runtimes e file os named stored (inl holds) encoded done =
      run_runtimes-Holds io n runtimes e file os stored (inl holds) encoded done
  run_groups-Holds io n [] runtimes e file os named stored (inr (inl some_group)) encoded done =
      absurd (ground (arith, some_group))
  run_groups-Holds io n [] runtimes e file os named stored (inr (inr some_runtime)) encoded done =
      run_runtimes-Holds io n runtimes e file os stored (inr some_runtime) encoded done
  run_groups-Holds io n ((key, group) ∷ groups) runtimes e file os (here, named) stored holds
        (encoded, all) done =
      let ingested =
        ingest h group.spans (register_application h group.service_name group.node_version e) in
      let stored2 =
        ingest-IsStored h group.spans _ here
          (application-IsStored group.service_name group.node_version e stored) in
      elim (Bool-cases (io.is_done n)) [
        | inl over ↦ absurd (cc (rw (run_groups, over) at done))
        | inr going ↦ elim (Option-cases ((checkpoint (some files) (io.fails n) ingested file).0)) [
          | inr (x, failed) ↦ absurd (cc (rw (run_groups, going, failed) at done))
          | inl saved ↦
              let more =
                outcomes-ok group.indexes ingested.revision
                  ((run_groups (some files) io (n + 1) groups runtimes ingested
                    ((checkpoint (some files) (io.fails n) ingested file).1)).0)
                  os (rw (run_groups, going, saved) at done) in
              rw (run_groups, going, saved)
                (run_groups-Holds io (n + 1) groups runtimes ingested _ (more.0) named stored2
                  (inl (checkpoint-Holds (io.fails n) ingested file stored2 encoded saved)) all
                  (more.1))
        ]
      ]

  -- When the sink, with a state store, reports success on a batch with a payload, whose spans have
  -- identifiers, the checkpoint opens to the engine that it leaves, under any later options, whatever
  -- the file held before. The engine before can be held by a checkpoint, and the states that the run
  -- saves are read back from their encodings, none of which has the checksum 0.
  pub consume_batch-Holds :
      (io : SinkIo) (envelopes : List (Envelope (Span h) (Gauges h))) (e : Engine h)
      (file : Option Bytes) (os : List (List ℕ × ℕ))
      → carries envelopes ≡ true
      → All IsNamed envelopes
      → IsStored h e
      → All IsEncoded (batch_states envelopes e)
      → (consume_batch (some files) io envelopes e file).0 ≡ ok os
      → Holds
          ((consume_batch (some files) io envelopes e file).1)
          ((consume_batch (some files) io envelopes e file).2)
  unfolding consume_batch batch_states
  consume_batch-Holds io envelopes e file os some_payload named stored encoded done =
      let filled : (null (sorted_keys (group_spans 0 envelopes [])) ≡ false)
          ⊎ (null (sorted_keys (group_runtimes envelopes [])) ≡ false) =
        elim (carries-filled 0 envelopes [] [] some_payload) [
          | inl some_group ↦ inl (sorted_keys-filled _ some_group)
          | inr some_runtime ↦ inr (sorted_keys-filled _ some_runtime)
        ] in
      elim (Bool-cases (io.is_done 0)) [
        | inl over ↦ absurd (cc (rw (consume_batch, over) at done))
        | inr going ↦
            rw (consume_batch, going)
              (run_groups-Holds io 1 (sorted_keys (group_spans 0 envelopes []))
                (sorted_keys (group_runtimes envelopes [])) e file os
                (sorted_keys-Entries IsGroup (group_spans 0 envelopes [])
                  (group_spans-IsGroup 0 envelopes [] named tt))
                stored (inr filled) encoded (rw (consume_batch, going) at done))
      ]
