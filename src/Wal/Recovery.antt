-- ===== src/Wal/Recovery.antt =====
-- runtime/go/internal/spool/wal_recovery.go: reading one segment and one checkpoint file back.
-- A loop over `data[offset:]` keeps the unread suffix of the file beside the offset.
pub mod Scan
pub mod Groups
pub mod Checkpoint
pub mod Torn
pub mod Crash
pub mod Active
use node_flow.Prelude.{
  ℕ, zero, suc, ◌+◌, ◌-◌, ◌*◌, ◌/◌, ◌%◌, ◌^◌, Bool, true, false, not, ◌&&◌, ◌||◌, Option, none,
  some, List, [], ◌∷◌, ◌++◌, length, take, drop, slice, member, null, ltb, leb, ◌==◌, if◌then◌else◌,
  Result, ok, err, ◌>>=◌, lookup, insert,
}
use node_flow.Bytes.{Bytes}
use node_flow.Wal.Format.{
  Platform, FrameKind, data_frame, commit_frame, StateKind, retry, ack, quarantine, Commit,
  StateEntry, FormatError, decode_wal_frame_header, decode_wal_record, decode_wal_commit,
  decode_wal_segment_header, decode_wal_state_header, decode_wal_state_entry,
  encode_wal_state_header, reject, segment_header_size, frame_header_size, state_header_size,
  state_entry_size,
}

pub record RecordMetadata : Type 0 where
  pub segment_id : ℕ
  pub offset : ℕ
  pub frame_size : ℕ
  pub attempts : ℕ

pub record RecoveredFrame : Type 0 where
  pub id : ℕ
  pub offset : ℕ
  pub frame_size : ℕ
  pub encoded : Bytes

-- Every corruption is `ErrCorruptWAL` with a message; `out_of_fuel` is no value of the source.
pub data RecoveryError : Type 0 where
  partial_header payload_checksum_mismatch duplicate_sequence invalid_commit : RecoveryError
  incomplete_non_final_tail repair_failed out_of_fuel : RecoveryError
  corrupt : FormatError → RecoveryError

-- The first frame's identifier, and the last one's, of `pending`.
abbrev pub first_id : List RecoveredFrame → ℕ
first_id [] = 0
first_id (f ∷ fs) = f.id

abbrev pub last_id : List RecoveredFrame → ℕ
last_id [] = 0
last_id (f ∷ []) = f.id
last_id (f ∷ g ∷ fs) = last_id (g ∷ fs)

-- What a commit marker publishes: the fields of the segment and of the log that the loop writes,
-- `seenIDs` and the offset behind the last marker.
pub record Committed : Type 0 where
  pub seen_ids : List ℕ
  pub record_ids : List ℕ
  pub next_id : ℕ
  pub active : List (ℕ × RecordMetadata)
  pub active_records : ℕ
  pub segment_quarantined : ℕ
  pub quarantined : ℕ
  pub committed_offset : ℕ

-- The frames read since the last marker.
pub record Pending : Type 0 where
  pub frames : List RecoveredFrame
  pub ids : List ℕ
  pub bytes : Bytes

abbrev pub no_pending : Pending
no_pending = record { frames = []; ids = []; bytes = [] }

module _ (p : Platform) where
  unfoldable pub valid_recovered_commit : Commit → List RecoveredFrame → Bytes → ℕ → Bool
  valid_recovered_commit commit pending encoded sequence =
      if null pending || not (commit.count == length pending) || not (sequence == commit.last_id)
      then false
      else (commit.first_id == first_id pending)
        && (commit.last_id == last_id pending)
        && (commit.data_bytes == length encoded)
        && (p.checksum encoded == commit.checksum)

  -- `truncateUncommittedTail`: the bytes cut off and the file that is left. `repaired` says whether
  -- the file system opened, cut and synced the file.
  unfoldable pub truncate_uncommitted_tail :
      Bool → Bool → Bytes → ℕ → Result RecoveryError (ℕ × Bytes)
  truncate_uncommitted_tail repaired is_last file committed_offset =
      reject (not is_last) incomplete_non_final_tail (
        let truncated = length file - committed_offset in
        if truncated == 0
        then ok (0, file)
        else reject (not repaired) repair_failed (ok (truncated, take committed_offset file)))

  -- What `recoverSegment` does with the loop's answer.
  unfoldable pub finish_segment :
      Bool
      → Bool
      → Bytes
      → Result RecoveryError (Committed × Bool)
      → Result RecoveryError (Committed × ℕ × Bytes)
  finish_segment repaired is_last file (err e) = err e
  finish_segment repaired is_last file (ok (c, false)) = ok (c, 0, file)
  finish_segment repaired is_last file (ok (c, true)) =
      elim (truncate_uncommitted_tail repaired is_last file c.committed_offset) [
        | err e ↦ err e
        | ok (truncated, left) ↦ ok (c, truncated, left)
      ]

  module _ (segment_id : ℕ) (states : List (ℕ × StateEntry)) where
    abbrev pub metadata_of : RecoveredFrame → ℕ → RecordMetadata
    metadata_of frame attempts = record {
      segment_id = segment_id;
      offset = frame.offset;
      frame_size = frame.frame_size;
      attempts = attempts;
    }

    -- `switch state.kind`, where a missing entry is the zero value and takes the default branch.
    unfoldable pub settle : RecoveredFrame → Option StateEntry → Committed → Committed
    settle frame none c = record c {
      active = insert frame.id (metadata_of frame 0) c.active;
      active_records = c.active_records + 1;
    }
    settle frame (some state) c = elim state.kind [
      | ack ↦ c
      | quarantine ↦ record c {
        segment_quarantined = c.segment_quarantined + 1;
        quarantined = c.quarantined + 1;
      }
      | retry ↦ record c {
        active = insert frame.id (metadata_of frame state.attempts) c.active;
        active_records = c.active_records + 1;
      }
    ]

    -- The body of the loop over `pending`.
    unfoldable pub publish_frame : RecoveredFrame → Committed → Committed
    publish_frame frame c = settle frame (lookup frame.id states) (record c {
      seen_ids = frame.id ∷ c.seen_ids;
      record_ids = c.record_ids ++ (frame.id ∷ []);
      next_id = if leb c.next_id frame.id then (frame.id + 1) % 2 ^ 64 else c.next_id;
    })

    unfoldable pub publish : List RecoveredFrame → Committed → Committed
    publish [] c = c
    publish (f ∷ fs) c = publish fs (publish_frame f c)

    -- `switch kind`: a data frame joins the pending ones, a marker publishes them.
    unfoldable pub accept_frame :
        FrameKind
        → ℕ
        → Bytes
        → Bytes
        → ℕ
        → Committed
        → Pending
        → Result RecoveryError (Committed × Pending)
    accept_frame data_frame sequence frame payload offset c q =
        reject (member sequence c.seen_ids) duplicate_sequence (
          reject (member sequence q.ids) duplicate_sequence
            (elim (decode_wal_record p payload sequence) [
              | err e ↦ err (corrupt e)
              | ok _ ↦ ok (
                c,
                record {
                  frames =
                      q.frames
                      ++ (record {
                        id = sequence;
                        offset = offset;
                        frame_size = length frame;
                        encoded = frame;
                      }
                          ∷ []);
                  ids = sequence ∷ q.ids;
                  bytes = q.bytes ++ frame;
                },
              )
            ]))
    accept_frame commit_frame sequence frame payload offset c q = elim (decode_wal_commit payload) [
      | err e ↦ err invalid_commit
      | ok commit ↦
          reject (not (valid_recovered_commit commit q.frames q.bytes sequence)) invalid_commit (
            ok (
              (record (publish q.frames c) { committed_offset = offset + length frame }),
              no_pending,
            ))
    ]

    -- The loop. The flag says that the tail from `committed_offset` on is to be cut off.
    unfoldable pub scan :
        ℕ → ℕ → Bytes → ℕ → Committed → Pending → Result RecoveryError (Committed × Bool)
    scan fuel segment_bytes [] offset c q = ok (c, not (null q.frames))
    scan zero segment_bytes (b ∷ bs) offset c q = err out_of_fuel
    scan (suc fuel) segment_bytes (b ∷ bs) offset c q =
        let rest : Bytes = b ∷ bs in
        if ltb (length rest) frame_header_size
        then ok (c, true)
        else elim (decode_wal_frame_header p (take frame_header_size rest)) [
          | err e ↦ err (corrupt e)
          | ok (kind, sequence, payload_size, payload_checksum) ↦
              let frame_size = frame_header_size + payload_size in
              if ltb (segment_bytes % 2 ^ 32) payload_size || ltb (length rest) frame_size
              then ok (c, true)
              else (let payload = slice frame_header_size frame_size rest in
                  reject (not (p.checksum payload == payload_checksum)) payload_checksum_mismatch
                    (elim (accept_frame kind sequence (take frame_size rest) payload offset c q) [
                      | err e ↦ err e
                      | ok (c', q') ↦
                          scan fuel segment_bytes (drop frame_size rest) (offset + frame_size) c' q'
                    ]))
        ]

    -- The recovered state, the number of bytes cut off, and the file that is left. Each round takes
    -- a frame header at least, so the length of the file is fuel enough.
    unfoldable pub recover_segment :
        Bool → Bool → ℕ → Bytes → Committed → Result RecoveryError (Committed × ℕ × Bytes)
    recover_segment repaired is_last segment_bytes file c =
        reject (ltb (length file) segment_header_size) partial_header
          (elim (decode_wal_segment_header p (take segment_header_size file) segment_id) [
            | err e ↦ err (corrupt e)
            | ok _ ↦ finish_segment repaired is_last file (
                scan (length file) segment_bytes (drop segment_header_size file) segment_header_size
                  (record c { committed_offset = segment_header_size }) no_pending)
          ])

  -- The loop of `recoverState` over the whole entries; a later entry of a record replaces an
  -- earlier one.
  unfoldable pub read_entries :
      ℕ → Bytes → List (ℕ × StateEntry) → Result RecoveryError (List (ℕ × StateEntry))
  read_entries zero rest states = ok states
  read_entries (suc n) rest states = elim (decode_wal_state_entry p (take state_entry_size rest)) [
    | err e ↦ err (corrupt e)
    | ok state ↦ read_entries n (drop state_entry_size rest) (insert state.id state states)
  ]

  -- The end of `recoverState`: what stands behind the whole entries is cut off.
  unfoldable pub keep_entries :
      Bool
      → Bytes
      → ℕ
      → List (ℕ × StateEntry)
      → Result RecoveryError (List (ℕ × StateEntry) × ℕ × ℕ × Bytes)
  keep_entries repaired file complete states =
      let truncated = length file - complete in
      if truncated == 0
      then ok (states, complete, 0, file)
      else reject (not repaired) repair_failed
          (ok (states, complete, truncated, take complete file))

  -- The states, the size that is kept, the bytes cut off, and the file that is left. A missing file
  -- is created with its header.
  unfoldable pub recover_state :
      Bool → ℕ → Option Bytes → Result RecoveryError (List (ℕ × StateEntry) × ℕ × ℕ × Bytes)
  recover_state repaired segment_id found =
      let file : Bytes = elim found [ none ↦ encode_wal_state_header p segment_id | some b ↦ b ] in
      reject (ltb (length file) state_header_size) partial_header
        (elim (decode_wal_state_header p (take state_header_size file) segment_id) [
          | err e ↦ err (corrupt e)
          | ok _ ↦
              let entries = (length file - state_header_size) / state_entry_size in
              let complete = state_header_size + entries * state_entry_size in
              elim (read_entries entries (drop state_header_size file) []) [
                | err e ↦ err e
                | ok states ↦ keep_entries repaired file complete states
              ]
        ])
