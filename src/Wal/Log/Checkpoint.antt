-- ===== src/Wal/Log/Checkpoint.antt =====
-- runtime/go/internal/spool/wal_state.go: `Ack`, `MarkRetry` and `Quarantine` append entries to the
-- checkpoint files of the records' segments, and then settle the records in memory.
use node_flow.Prelude.{
  ℕ, ◌+◌, ◌-◌, ◌%◌, ◌^◌, Bool, true, false, not, ◌&&◌, ◌||◌, none, some, List, [], ◌∷◌, ◌++◌,
  length, take, ltb, ◌==◌, if◌then◌else◌, Result, ok, err, lookup, insert, erase,
}
use node_flow.Bytes.{Bytes}
use node_flow.Wal.Format.{
  Platform, StateKind, retry, ack, quarantine, StateReason, none_given, permanent,
  attempts_exhausted, StateEntry, state_reason_byte, encode_wal_state_entry, state_entry_size,
}
use node_flow.Wal.Recovery.{RecordMetadata}
use node_flow.Wal.Log.{
  Wal, Segment, WalError, retry_exceeded, unavailable_segment, write_failed, sync_failed,
  consume_reserve, release_record_reserve, compact_record_index,
}
use node_flow.Wal.Log.Commit.{put_segment}

-- What the file system answers to the checkpoint of one segment. `stats` says whether the size of
-- the file can be read back after a failure.
pub record StateIo : Type 0 where
  pub written : ℕ
  pub writes : Bool
  pub synced : Bool
  pub stats : Bool

-- A batch for each segment, in ascending order of segments: `bySegment` under `segmentIDs`.
abbrev pub Batches : Type 0
Batches = List (ℕ × List StateEntry)

unfoldable pub add_entry : ℕ → StateEntry → Batches → Batches
add_entry k e [] = (k, e ∷ []) ∷ []
add_entry k e ((j, es) ∷ rest) =
    let later = add_entry k e rest in
    if k == j
    then (j, es ++ (e ∷ [])) ∷ rest
    else if ltb k j
    then (k, e ∷ []) ∷ (j, es) ∷ rest
    else (j, es) ∷ later

-- The loop over `records`, by their identifiers; a record that is not active is passed over.
unfoldable pub collect :
    StateKind
    → StateReason
    → Bool
    → List (ℕ × RecordMetadata)
    → List ℕ
    → Batches
    → Result WalError Batches
collect kind reason increment active [] batches = ok batches
collect kind reason increment active (k ∷ ks) batches = elim (lookup k active) [
  | none ↦ collect kind reason increment active ks batches
  | some m ↦
      let attempts = if increment then m.attempts + 1 else m.attempts in
      elim (increment && ltb 99999 attempts) [
        | true ↦ err retry_exceeded
        | false ↦ collect kind reason increment active ks (
            add_entry m.segment_id
              (record {
                kind = kind;
                reason = state_reason_byte reason;
                id = k;
                attempts = attempts % 2 ^ 32;
              })
              batches)
      ]
]

-- `reconcileStateSize`: the size of the file as it is.
unfoldable pub reconcile : StateIo → Segment → Wal → Wal
reconcile io s w =
    if io.stats
    then record (put_segment (record s { state_size = length s.state_file }) w) {
      used_bytes = w.used_bytes + length s.state_file - s.state_size;
    }
    else w

module _ (p : Platform) where
  abbrev pub encode_entries : List StateEntry → Bytes
  encode_entries [] = []
  encode_entries (e ∷ es) = encode_wal_state_entry p e ++ encode_entries es

  -- The checkpoint of one segment: the bytes reach its file, but are not yet accounted for.
  unfoldable pub write_batch :
      StateIo → ℕ → List StateEntry → Wal → Result WalError (Unit {0}) × Wal
  write_batch io k es w = elim (lookup k w.segments) [
    | none ↦ (err unavailable_segment, w)
    | some s ↦
        let encoded = encode_entries es in
        let part = take io.written encoded in
        let s' : Segment = record s { state_file = s.state_file ++ part } in
        let w' : Wal = put_segment s' w in
        if not s.state_open
        then (err unavailable_segment, w)
        else if not io.writes || not (length part == length encoded)
        then (err write_failed, reconcile io s' w')
        else if not io.synced
        then (err sync_failed, reconcile io s' w')
        else (ok tt, w')
  ]

  unfoldable pub write_batches : (ℕ → StateIo) → Batches → Wal → Result WalError (Unit {0}) × Wal
  write_batches ios [] w = (ok tt, w)
  write_batches ios ((k, es) ∷ rest) w =
      let done = write_batch (ios k) k es w in
      elim (done.0) [ err e ↦ done | ok _ ↦ write_batches ios rest (done.1) ]

  -- `switch entry.kind`, for an entry of the segment `k` whose record is active.
  unfoldable pub apply_kind : StateKind → ℕ → StateEntry → RecordMetadata → Segment → Wal → Wal
  apply_kind retry k e m s w =
      let w' : Wal = consume_reserve state_entry_size w in
      record w' { active = insert e.id (record m { attempts = e.attempts }) w.active }
  apply_kind ack k e m s w =
      let w' : Wal = release_record_reserve m.attempts w in
      record (put_segment (record s { active_records = s.active_records - 1 }) w') {
        active = erase e.id w.active;
      }
  apply_kind quarantine k e m s w =
      let w' : Wal = release_record_reserve m.attempts w in
      record (put_segment
        (record s {
          active_records = s.active_records - 1;
          quarantined_records = s.quarantined_records + 1;
        })
        w') { active = erase e.id w.active; quarantined = w.quarantined + 1 }

  unfoldable pub apply_entry : ℕ → StateEntry → Wal → Wal
  apply_entry k e w = elim (lookup e.id w.active) [
    | none ↦ w
    | some m ↦ elim (lookup k w.segments) [ none ↦ w | some s ↦ apply_kind e.kind k e m s w ]
  ]

  unfoldable pub apply_entries : ℕ → List StateEntry → Wal → Wal
  apply_entries k [] w = w
  apply_entries k (e ∷ es) w = apply_entries k es (apply_entry k e w)

  -- The bytes of a batch, which are on disk by now.
  unfoldable pub account_batch : ℕ → List StateEntry → Wal → Wal
  account_batch k es w = elim (lookup k w.segments) [
    | none ↦ w
    | some s ↦
        let size = length (encode_entries es) in
        record (put_segment (record s { state_size = s.state_size + size }) w) {
          used_bytes = w.used_bytes + size;
        }
  ]

  unfoldable pub apply_batches : Batches → Wal → Wal
  apply_batches [] w = w
  apply_batches ((k, es) ∷ rest) w = apply_batches rest (apply_entries k es (account_batch k es w))

  -- `writeRecordStates`; the attempts that it writes back into the caller's records are those of
  -- `active`.
  unfoldable pub write_record_states :
      (ℕ → StateIo)
      → StateKind
      → StateReason
      → Bool
      → List ℕ
      → Wal
      → Result WalError (Unit {0}) × Wal
  write_record_states ios kind reason increment [] w = (ok tt, w)
  write_record_states ios kind reason increment (k ∷ ks) w = elim w.fault [
    | some e ↦ (err e, w)
    | none ↦ elim (collect kind reason increment w.active (k ∷ ks) []) [
      | err e ↦ (err e, w)
      | ok batches ↦
          let done = write_batches ios batches w in
          elim (done.0) [
            | err e ↦ done
            | ok _ ↦ (ok tt, compact_record_index (apply_batches batches (done.1)))
          ]
    ]
  ]

  unfoldable pub acknowledge : (ℕ → StateIo) → List ℕ → Wal → Result WalError (Unit {0}) × Wal
  acknowledge ios ks w = write_record_states ios ack none_given false ks w

  unfoldable pub mark_retry : (ℕ → StateIo) → List ℕ → Wal → Result WalError (Unit {0}) × Wal
  mark_retry ios ks w = write_record_states ios retry none_given true ks w

  -- The source compares the reason with "permanent".
  unfoldable pub quarantine_records :
      (ℕ → StateIo) → List ℕ → Bool → Wal → Result WalError (Unit {0}) × Wal
  quarantine_records ios ks is_permanent w =
      write_record_states ios quarantine (if is_permanent then permanent else attempts_exhausted)
        false ks w
