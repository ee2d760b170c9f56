-- ===== src/Lib.antt =====
-- The collector of node-flow (runtime/go): its storage, its pipeline and its topology engine.
--
-- A collector takes telemetry envelopes in, makes them durable in a write-ahead log and hands them
-- to a topology sink; what the sink has taken is acknowledged in the log. The log is a sequence of
-- segments, each a data file of frames, where a commit marker ends each group of records, and a
-- checkpoint file of entries that acknowledge, retry or quarantine records. A crash may cut either
-- file anywhere behind its last synced byte.
--
--   Prelude   numbers, tests, lists, results and association lists, with their lemmas
--   Bytes     big-endian numbers
--   Wal       runtime/go/internal/spool/wal*.go
--     Format      wal_format.go: headers, frames, commit markers and checkpoint entries
--     Group       the bytes of a group (commitGroup in wal.go)
--     Recovery    wal_recovery.go: recoverSegment and recoverState
--     Log         wal.go and wal_state.go: the open log, its commits, checkpoints and compaction
--   Store     runtime/go/internal/spool/spool.go: the legacy store, one file to a record
--   Telemetry runtime/go/internal/telemetry/model.go: envelopes
--     Validate    validate.go: what is taken in, and which attributes are removed
--   Pipeline  runtime/go/internal/pipeline/pipeline.go: the grouping of a flush and the worker's loop
--     Marks       `MarkRetry` of the legacy store, as the worker calls it
--   Topology  runtime/go/internal/topology: the engine that makes a graph of the spans
--     Identity    identity.go: the stable identifiers of nodes, edges and paths
--     Metrics     the accumulators (record and removeRecord in engine.go)
--     Ingest      the first two loops of Ingest: spans are admitted, counted and linked
--     Paths       buildTrace and collectNodePaths
--     Aggregate   aggregateRuntimePaths and removeLeastUsefulPath
--     Trim        trimTraces
--     Batch       New, Ingest whole, UpdateRuntime and RegisterApplication
--     Sound, Linked, Weighed, Trimmed, Whole: the invariant of the engine
--     Quiet, Totals, Delivery: a batch and the counts of the nodes
--     Ancestors   the walks up a trace
--     State       state.go: the checkpoint of the engine, saved and opened again
--     Snapshot    the live and the architecture snapshot (engine.go, model.go)
--   Sink      runtime/go/internal/sink/topology.go: the sink of the pipeline
--
-- The sink behind the pipeline gives the spans of a batch to Ingest and saves the engine; a worker that
-- gets an error delivers the batch again.
--
-- A function of the source is a function here, under its name in snake case. A struct is a record, a
-- map an association list, an error return a `Result`. What is not in the repository is an argument:
-- CRC-32 and encoding/json are the fields of `Platform`, with the laws relied on in `Laws`; what the
-- file system and the clock answer is the argument `io` of an operation, so a theorem speaks of every
-- failure. Files are lists of bytes. Fixed-width fields wrap around where the source's do; byte
-- counts and the counters of an int64 are numbers without a bound.
--
-- The loop of `recoverSegment` runs on fuel, the length of the file: each round takes 28 bytes at
-- least. The loop of a worker runs on fuel, the rounds that the attempts leave, and the loops of a final
-- acknowledgement or quarantine on fuel of their own; a run that is out of fuel is told apart from
-- those that end. The walks up a trace run on fuel, one round more than the trace has spans, and tell
-- the end of their fuel apart too. The trees of a trace (`grow`) have fuel for twice as many spans as it
-- keeps, and one more.
--
-- In the engine, float64 and the functions of the standard library on text are the fields of `Host`, with
-- no laws; encoding/json and CRC-32 of its checkpoint are in `Files`. A Go map is an association list,
-- whose order the source leaves open; a set is the list of its members. The engine's lock makes each
-- operation one step. The limits of the options are numbers, so not negative.
--
-- Not modelled: the recovery over all segments, the reading back of the legacy store's directories,
-- the loader and the dispatcher's loop of the pipeline, the send of a flush where the context is done;
-- locks and channels, but for the order of the steps that they impose; metrics and logging; file names;
-- the HTTP sink, the server and the commands; the times of snapshots.
pub mod Prelude
pub mod Bytes
pub mod Wal
pub mod Store
pub mod Telemetry
pub mod Pipeline
pub mod Topology
pub mod Sink
