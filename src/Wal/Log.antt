-- ===== src/Wal/Log.antt =====
-- runtime/go/internal/spool/wal.go: the state of an open log. A segment holds what its two files
-- hold; `segments` lists them in the order of `segmentIDs`. What the file system answers is an
-- argument of each operation. Byte counts are numbers without a bound; the overflow of int64 is not
-- modelled.
pub mod Commit
pub mod Checkpoint
pub mod Accounts
pub mod Compaction
pub mod CommitBooks
pub mod Answers
pub mod Read
use node_flow.Prelude.{
  ℕ, zero, suc, ◌+◌, ◌-◌, ◌*◌, Bool, true, false, not, ◌&&◌, ◌||◌, Option, none, some, List, [],
  ◌∷◌, ◌++◌, length, map, ltb, leb, ◌==◌, if◌then◌else◌, Result, ok, err, lookup, insert, erase,
}
use node_flow.Bytes.{Bytes}
use node_flow.Wal.Format.{segment_header_size, state_header_size, state_entry_size}
use node_flow.Wal.Recovery.{RecordMetadata}

-- `no_current` stands for the panic of a log without a current segment.
pub data WalError : Type 0 where
  full closed_storage : WalError
  corrupt_wal retry_exceeded unavailable_segment : WalError
  no_current : WalError
  write_failed sync_failed create_failed close_failed remove_failed : WalError

pub record Segment : Type 0 where
  pub id : ℕ
  pub size : ℕ
  pub state_size : ℕ
  pub record_ids : List ℕ
  pub active_records : ℕ
  pub quarantined_records : ℕ
  pub closed : Bool
  pub state_open : Bool
  pub file : Bytes
  pub state_file : Bytes

-- `WALConfig`, without the intervals and the queue, which the operations do not read.
pub record WalConfig : Type 0 where
  pub max_bytes : ℕ
  pub segment_bytes : ℕ
  pub max_batch_records : ℕ
  pub max_record_attempts : ℕ

pub record Wal : Type 0 where
  pub config : WalConfig
  pub closed : Bool
  pub fault : Option WalError
  pub next_id : ℕ
  pub next_segment_id : ℕ
  pub current : ℕ
  pub segments : List (ℕ × Segment)
  pub active : List (ℕ × RecordMetadata)
  pub ids : List ℕ
  pub used_bytes : ℕ
  pub reserved_bytes : ℕ
  pub quarantined : ℕ

pub record Stats : Type 0 where
  pub bytes : ℕ
  pub reserved : ℕ
  pub active_records : ℕ
  pub quarantined_records : ℕ
  pub segments : ℕ

unfoldable pub stats : Wal → Stats
stats w = record {
  bytes = w.used_bytes;
  reserved = w.reserved_bytes;
  active_records = length w.active;
  quarantined_records = w.quarantined;
  segments = length w.segments;
}

unfoldable pub ready : Wal → Result WalError (Unit {0})
ready w = elim w.fault [
  | some e ↦ err e
  | none ↦
      if w.closed
      then err closed_storage
      else if leb w.config.max_bytes (w.used_bytes + w.reserved_bytes)
      then err full
      else ok tt
]

unfoldable pub consume_reserve : ℕ → Wal → Wal
consume_reserve bytes w = record w { reserved_bytes = w.reserved_bytes - bytes }

-- The checkpoint bytes that a record with so many attempts may still need: one entry at least.
abbrev pub remaining_reserve : ℕ → ℕ → ℕ
remaining_reserve max_attempts attempts =
    let remaining = max_attempts - attempts in
    (if ltb remaining 1 then 1 else remaining) * state_entry_size

unfoldable pub release_record_reserve : ℕ → Wal → Wal
unfolding consume_reserve
release_record_reserve attempts w =
    consume_reserve (remaining_reserve w.config.max_record_attempts attempts) w

-- The condition under which the loop of `compactSegmentsLocked` does not keep a segment.
abbrev pub is_removable : ℕ → Segment → Bool
is_removable current s = not (
    s.id == current
    || not s.closed
    || not (s.active_records == 0)
    || not (s.quarantined_records == 0))

-- What the file system answers to the compaction, by segment: whether the checkpoint file closes,
-- whether both files are gone in the end, and whether the directory is synced.
pub record CompactIo : Type 0 where
  pub state_closes : ℕ → Bool
  pub removes : ℕ → Bool
  pub dir_synced : Bool

-- The ways through the loop's body.
pub data Verdict : Type 0 where
  stays close_fails remove_fails goes : Verdict

unfoldable pub compact_verdict : CompactIo → ℕ → Segment → Verdict
compact_verdict io current s =
    if not (is_removable current s)
    then stays
    else if s.state_open && not (io.state_closes s.id)
    then close_fails
    else if not (io.removes s.id)
    then remove_fails
    else goes

-- The segment as it stays in the list, if it stays.
abbrev pub kept_segment : Verdict → Segment → Option Segment
kept_segment stays s = some s
kept_segment close_fails s = some s
kept_segment remove_fails s = some (record s { state_open = false })
kept_segment goes s = none

-- The log behind the loop's body.
abbrev pub charge : Verdict → Segment → Wal → Wal
charge stays s w = w
charge close_fails s w = record w { fault = some close_failed }
charge remove_fails s w = record w { fault = some remove_failed }
charge goes s w = record w { used_bytes = w.used_bytes - (s.size + s.state_size) }

abbrev pub keep_if : ℕ → Option Segment → List (ℕ × Segment) → List (ℕ × Segment)
keep_if k none rest = rest
keep_if k (some s) rest = (k, s) ∷ rest

abbrev pub count_if : Option Segment → ℕ → ℕ
count_if none n = n + 1
count_if (some s) n = n

-- The segments that stay, the log, and the number of segments removed.
unfoldable pub compact_loop : CompactIo → List (ℕ × Segment) → Wal → List (ℕ × Segment) × Wal × ℕ
compact_loop io [] w = ([], w, 0)
compact_loop io ((k, s) ∷ rest) w =
    let verdict = compact_verdict io w.current s in
    let kept = kept_segment verdict s in
    let later = compact_loop io rest (charge verdict s w) in
    (keep_if k kept later.0, later.1, count_if kept later.2)

-- `compactSegmentsLocked`.
unfoldable pub compact_segments : CompactIo → Wal → Wal
compact_segments io w =
    let done = compact_loop io w.segments w in
    let w' : Wal = record (done.1) { segments = done.0 } in
    if ltb 0 (done.2) && not io.dir_synced then record w' { fault = some sync_failed } else w'

-- `compactRecordIndexLocked`.
unfoldable pub still_active : List (ℕ × RecordMetadata) → List ℕ → List ℕ
still_active active [] = []
still_active active (k ∷ ks) =
    let rest = still_active active ks in elim (lookup k active) [ none ↦ rest | some m ↦ k ∷ rest ]

unfoldable pub compact_record_index : Wal → Wal
compact_record_index w =
    if ltb (length w.ids) 1024 || leb (length w.ids) (length w.active * 2)
    then w
    else record w { ids = still_active w.active w.ids }
