-- ===== src/Topology/State/Recovered.antt =====
-- runtime/go/internal/topology: theorems on calls of the engine, then `Save` and `OpenStateStore`.
use node_flow.Prelude.{
  ℕ, ◌≤◌, ◌≡◌, refl, ◌⊎◌, inl, inr, Bool, Option, List, [], ◌∷◌, All, null, find, find-Entries,
  Bool-cases, Option-cases, ok, err, arith,
}
use node_flow.Bytes.{Bytes}
use node_flow.Topology.{Host, Span, Engine}
use node_flow.Topology.Ingest.{touched_traces}
use node_flow.Topology.Aggregate.{aggregate}
use node_flow.Topology.Batch.{
  Options, or_default, new, register_application, aggregate_touched, start_batch, ingest,
  update_runtime,
}
use node_flow.Topology.Whole.{Call, spans_came, metrics_came, application_came, answer, answer_all}
use node_flow.Topology.State.{persisted_state}
use node_flow.Topology.State.RoundTrip.{IsStoredTrace, IsStored, IsSame}
use node_flow.Topology.State.Saved.{
  Files, Step, SaveError, save, open_state_store, quiet, Readable, Summed, open_state_store-save,
}
use node_flow.Topology.State.Filed.{
  IsSpan, stored_maps, kept_nodes, kept_edges, kept_paths, kept_traces,
}
use node_flow.Topology.State.Reached.{admit_spans-IsStored, link_touched-IsStored}
use node_flow.Topology.State.ReachedPaths.{aggregate-IsStored, trim_traces-IsStored}

module _ (h : Host) where
  -- The spans of a call have identifiers.
  abbrev pub IsCall : Call h → Type 0
  IsCall (spans_came spans) = All (IsSpan h) spans
  IsCall (metrics_came metrics) = Unit
  IsCall (application_came name version) = Unit

  aggregate_touched-IsStored :
      (ids : List Bytes) (e : Engine h) → IsStored h e → IsStored h (aggregate_touched h ids e)
  unfolding aggregate_touched
  aggregate_touched-IsStored [] e stored = stored
  aggregate_touched-IsStored (id ∷ ids) e stored = elim (Option-cases (find id e.traces)) [
    | inl missing ↦ rw (aggregate_touched, missing) (aggregate_touched-IsStored ids e stored)
    | inr (trace, found) ↦
        let sound = find-Entries (IsStoredTrace h) id trace e.traces stored.traces found in
        rw (aggregate_touched, found)
          (aggregate_touched-IsStored ids (aggregate h trace e)
            (aggregate-IsStored h trace e (refl, rw (sound.0) (sound.1), sound.2) stored))
  ]

  same_maps-IsStored :
      (e : Engine h) (revision : ℕ) (active_nodes active_edges : List Bytes)
      → IsStored h e
      → IsStored h (record e {
        revision = revision;
        active_nodes = active_nodes;
        active_edges = active_edges;
      })
  same_maps-IsStored e revision active_nodes active_edges stored =
      stored_maps h e _ _ _ _ _ _ _ _ _ _ _ _ stored (kept_nodes h e stored) (kept_edges h e stored)
        (kept_paths h e stored) (kept_traces h e stored)

  pub ingest-IsStored :
      (spans : List (Span h)) (e : Engine h)
      → All (IsSpan h) spans
      → IsStored h e
      → IsStored h (ingest h spans e)
  unfolding ingest start_batch
  ingest-IsStored spans e named stored = same_maps-IsStored _ _ _ _ (
      trim_traces-IsStored h _ (
        aggregate_touched-IsStored (touched_traces h spans []) _ (
          link_touched-IsStored h (touched_traces h spans []) _
            (admit_spans-IsStored h spans _ named (same_maps-IsStored e _ _ _ stored)))))

  pub answer-IsStored :
      (c : Call h) (e : Engine h) → IsCall c → IsStored h e → IsStored h (answer h c e)
  unfolding answer update_runtime register_application
  answer-IsStored (spans_came spans) e named stored = ingest-IsStored spans e named stored
  answer-IsStored (metrics_came metrics) e named stored =
      stored_maps h e _ _ _ _ _ _ _ _ _ _ _ _ stored (kept_nodes h e stored) (kept_edges h e stored)
        (kept_paths h e stored) (kept_traces h e stored)
  answer-IsStored (application_came name version) e named stored = record {
    one_node = stored.one_node;
    nodes = stored.nodes;
    one_edge = stored.one_edge;
    edges = stored.edges;
    one_path = stored.one_path;
    paths = stored.paths;
    one_trace = stored.one_trace;
    traces = stored.traces;
    version = elim (Bool-cases (null (h.trim_space version))) [
      | inl bare ↦ rw bare stored.version
      | inr filled ↦ rw (filled, filled) refl
    ];
    traces_positive = stored.traces_positive;
    samples_positive = stored.samples_positive;
    paths_positive = stored.paths_positive;
  }

  answers-IsStored :
      (cs : List (Call h)) (e : Engine h)
      → All IsCall cs
      → IsStored h e
      → IsStored h (answer_all h cs e)
  unfolding answer_all
  answers-IsStored [] e named stored = stored
  answers-IsStored (c ∷ cs) e (here, named) stored =
      answers-IsStored cs (answer h c e) named (answer-IsStored c e here stored)

  default-positive : (d n : ℕ) → 1 ≤ d → 1 ≤ or_default d n
  default-positive d n e = ground arith

  pub new-IsStored : (options : Options) → IsStored h (new h options)
  unfolding new
  new-IsStored options = record {
    one_node = tt;
    nodes = tt;
    one_edge = tt;
    edges = tt;
    one_path = tt;
    paths = tt;
    one_trace = tt;
    traces = tt;
    version = elim (Bool-cases (null options.node_version)) [
      | inl bare ↦ rw bare refl
      | inr filled ↦ rw (filled, filled) refl
    ];
    traces_positive = default-positive 50 options.max_recent_traces (omega arith);
    samples_positive = default-positive 1000 options.max_latency_samples (omega arith);
    paths_positive = default-positive 1000 options.max_runtime_paths (omega arith);
  }

  -- An engine made with any options, behind any sequence of batches whose spans have identifiers, of
  -- runtime metrics and of registrations: whatever steps of `Save` fail, either it returns an error
  -- and leaves the file as it was, or the file behind it opens to that engine, under any later options.
  -- The engine's state is read back from its encoding, and the checksum of its encoding is not 0, the
  -- number that stands for none.
  pub open_state_store-answer_all :
      (files : Files h) (options later : Options) (cs : List (Call h)) (io : Step → Bool)
      (file : Option Bytes)
      → All IsCall cs
      → Readable files (persisted_state h (answer_all h cs (new h options)))
      → Summed files (persisted_state h (answer_all h cs (new h options)))
      → (((x : SaveError) × (save files io (answer_all h cs (new h options)) file ≡ (err x, file)))
          ⊎ ((f : Engine h) × (open_state_store files
                  (quiet files ((save files io (answer_all h cs (new h options)) file).1))
                  later
                ≡ ok f)
              × IsSame h later (answer_all h cs (new h options)) f))
  open_state_store-answer_all files options later cs io file named readable summed =
      open_state_store-save files io (answer_all h cs (new h options)) file later
        (answers-IsStored cs (new h options) named (new-IsStored options)) readable summed
