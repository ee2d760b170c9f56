-- ===== src/Wal/Log/Commit.antt =====
-- runtime/go/internal/spool/wal.go: `commitGroup`, the rotation of segments and the batches of
-- `processAppendRequests`.
use node_flow.Prelude.{
  ℕ, ◌+◌, ◌-◌, ◌*◌, ◌%◌, ◌^◌, Bool, true, false, not, ◌&&◌, ◌||◌, none, some, List, [], ◌∷◌, ◌++◌,
  length, map, take, ltb, leb, ◌==◌, null, if◌then◌else◌, Result, ok, err, ◌>>=◌, lookup, insert, ℤ,
}
use node_flow.Bytes.{Bytes}
use node_flow.Wal.Format.{
  Platform, Record, encode_wal_segment_header, encode_wal_state_header, encode_wal_data_frame,
  segment_header_size, state_header_size, state_entry_size, frame_header_size, commit_payload_size,
  reject,
}
use node_flow.Wal.Group.{Prepared, encode_group}
use node_flow.Wal.Log.{
  Wal, Segment, WalError, full, no_current, write_failed, sync_failed, create_failed, close_failed,
  CompactIo, compact_segments,
}

-- What the clock and the file system answer to one commit. `written` bytes of the group reach the
-- file.
pub record CommitIo : Type 0 where
  pub created_at : ℕ
  pub creates : Bool
  pub closes : Bool
  pub written : ℕ
  pub writes : Bool
  pub synced : Bool
  pub compaction : CompactIo

abbrev pub put_segment : Segment → Wal → Wal
put_segment s w = record w { segments = insert s.id s w.segments }

-- A record's reserve: one checkpoint entry for each attempt.
abbrev pub record_reserve : Wal → ℕ
record_reserve w = w.config.max_record_attempts * state_entry_size

module _ (p : Platform) where
  abbrev pub new_segment : ℕ → ℕ → Segment
  new_segment id created = record {
    id = id;
    size = segment_header_size;
    state_size = state_header_size;
    record_ids = [];
    active_records = 0;
    quarantined_records = 0;
    closed = false;
    state_open = true;
    file = encode_wal_segment_header p id created;
    state_file = encode_wal_state_header p id;
  }

  unfoldable pub install_segment : Segment → Wal → Wal
  install_segment s w = record w {
    segments = insert s.id s w.segments;
    used_bytes = w.used_bytes + (s.size + s.state_size);
    next_segment_id = if leb w.next_segment_id s.id then (s.id + 1) % 2 ^ 64 else w.next_segment_id;
  }

  -- `rotateLocked`, for the current segment `cur`.
  unfoldable pub rotate : CommitIo → Segment → Wal → Result WalError Wal
  rotate io cur w = reject (not io.creates) create_failed (
      reject (not io.closes) close_failed (
        let s : Segment = new_segment w.next_segment_id io.created_at in
        let w' : Wal = install_segment s (put_segment (record cur { closed = true }) w) in
        ok (record w' { current = s.id })))

  abbrev pub needs_rotation : Bytes → Segment → Wal → Bool
  needs_rotation encoded cur w =
      ltb segment_header_size cur.size && ltb w.config.segment_bytes (cur.size + length encoded)

  -- The bytes that the log would hold and reserve behind the commit.
  unfoldable pub projected : List (Prepared p.Envelope) → Bytes → Segment → Wal → ℕ
  projected rs encoded cur w =
      let base = w.used_bytes + w.reserved_bytes + length encoded + length rs * record_reserve w in
      if needs_rotation encoded cur w
      then (let larger = base + (segment_header_size + state_header_size) in
          if cur.active_records == 0 && cur.quarantined_records == 0
          then larger - (cur.size + cur.state_size)
          else larger)
      else base

  unfoldable pub publish_record : ℕ → Prepared p.Envelope → Segment → Wal → Wal
  publish_record offset r cur w =
      record (put_segment
        (record cur {
          record_ids = cur.record_ids ++ (r.item.id ∷ []);
          active_records = cur.active_records + 1;
        })
        w) {
          active =
              insert r.item.id
                (record {
                  segment_id = cur.id;
                  offset = offset;
                  frame_size = length r.frame;
                  attempts = 0;
                })
                w.active;
          ids = w.ids ++ (r.item.id ∷ []);
          reserved_bytes = w.reserved_bytes + record_reserve w;
        }

  -- The loop behind the sync.
  unfoldable pub publish_records : ℕ → List (Prepared p.Envelope) → Wal → Wal
  publish_records offset [] w = w
  publish_records offset (r ∷ rs) w = elim (lookup w.current w.segments) [
    | none ↦ w
    | some cur ↦ publish_records (offset + length r.frame) rs (publish_record offset r cur w)
  ]

  -- The write and the sync; a short write is an error.
  unfoldable pub append_group :
      CommitIo
      → List (Prepared p.Envelope)
      → Bytes
      → Segment
      → Wal
      → Result WalError (Unit {0}) × Wal
  append_group io rs encoded cur w =
      let part = take io.written encoded in
      let w' : Wal =
        record (put_segment (record cur { size = cur.size + length part; file = cur.file ++ part })
          w) { used_bytes = w.used_bytes + length part } in
      if not io.writes || not (length part == length encoded)
      then (err write_failed, record w' { fault = some write_failed })
      else if not io.synced
      then (err sync_failed, record w' { fault = some sync_failed })
      else (ok tt, publish_records cur.size rs w')

  -- The rotation, when it is due, with the compaction behind it.
  unfoldable pub make_room : CommitIo → Bytes → Segment → Wal → Result WalError Wal
  make_room io encoded cur w =
      if needs_rotation encoded cur w
      then (rotate io cur w >>= λ w'. ok (compact_segments io.compaction w'))
      else ok w

  unfoldable pub append_to_current :
      CommitIo → List (Prepared p.Envelope) → Bytes → Wal → Result WalError (Unit {0}) × Wal
  append_to_current io rs encoded w = elim (lookup w.current w.segments) [
    | none ↦ (err no_current, w)
    | some cur ↦ append_group io rs encoded cur w
  ]

  unfoldable pub admit_group :
      CommitIo → List (Prepared p.Envelope) → Segment → Wal → Result WalError (Unit {0}) × Wal
  admit_group io rs cur w =
      let encoded = encode_group p rs in
      if ltb w.config.max_bytes (projected rs encoded cur w)
      then (err full, w)
      else (elim (make_room io encoded cur w) [
        | err e ↦ (err e, record w { fault = some e })
        | ok w' ↦ append_to_current io rs encoded w'
      ])

  unfoldable pub commit_group :
      CommitIo → List (Prepared p.Envelope) → Wal → Result WalError (Unit {0}) × Wal
  commit_group io rs w = elim w.fault [
    | some e ↦ (err e, w)
    | none ↦ elim (lookup w.current w.segments) [
      | none ↦ (err no_current, w)
      | some cur ↦ admit_group io rs cur w
    ]
  ]

  -- `walAppendRequest`: the channel that waits for the answer, the envelope, and the time at which
  -- the loop stamps the record.
  pub record Request : Type 0 where
    pub channel : ℕ
    pub envelope : p.Envelope
    pub stamped : ℤ

  pub data AppendError : Type 0 where
    encode_failed : AppendError
    refused : WalError → AppendError

  abbrev pub Answer : Type 0
  Answer = ℕ × Result AppendError (Record p.Envelope)

  abbrev pub Batch : Type 0
  Batch = List (ℕ × Prepared p.Envelope)

  -- With an error the source sends the record too, which is left out.
  abbrev pub answer_one : Result WalError (Unit {0}) → ℕ × Prepared p.Envelope → Answer
  answer_one (ok _) (channel, r) = (channel, ok r.item)
  answer_one (err e) (channel, r) = (channel, err (refused e))

  abbrev pub prepared_bytes : Batch → ℕ
  prepared_bytes [] = 0
  prepared_bytes ((channel, r) ∷ batch) = length r.frame + prepared_bytes batch

  -- `flush`. `ios n` is what the file system answers to the commit number `n`.
  unfoldable pub flush :
      (ℕ → CommitIo) → ℕ → Batch → Wal → Result WalError (Unit {0}) × List Answer × ℕ × Wal
  flush ios n [] w = (ok tt, [], n, w)
  flush ios n (b ∷ batch) w =
      let done = commit_group (ios n) (map (λ c. c.1) (b ∷ batch)) w in
      (done.0, map (answer_one (done.0)) (b ∷ batch), n + 1, done.1)

  abbrev pub refuse : WalError → Request → Answer
  refuse e q = (q.channel, err (refused e))

  -- The record that a request becomes, and the log that has given out its identifier.
  abbrev pub stamp : Request → Wal → Record p.Envelope
  stamp q w = record {
    id = w.next_id;
    attempts = 0;
    enqueued_at = q.stamped;
    envelope = q.envelope;
  }

  abbrev pub bump_id : Wal → Wal
  bump_id w = record w { next_id = (w.next_id + 1) % 2 ^ 64 }

  -- Whether the group must be written before this frame joins it.
  abbrev pub is_batch_full : Batch → Bytes → Wal → Bool
  is_batch_full batch frame w =
      not (null batch)
      && ltb w.config.segment_bytes
          (prepared_bytes batch + length frame + (frame_header_size + commit_payload_size))

  abbrev pub prepend : List Answer → List Answer × Wal → List Answer × Wal
  prepend answers (more, w) = (answers ++ more, w)

  unfoldable pub process_loop : (ℕ → CommitIo) → List Request → ℕ → Batch → Wal → List Answer × Wal
  process_loop ios [] n batch w = let last = flush ios n batch w in (last.1, last.3)
  process_loop ios (q ∷ qs) n batch w =
      let r : Record p.Envelope = stamp q w in
      let w₁ : Wal = bump_id w in
      elim (encode_wal_data_frame p r) [
        | none ↦ prepend ((q.channel, err encode_failed) ∷ []) (process_loop ios qs n batch w₁)
        | some frame ↦
            let item : ℕ × Prepared p.Envelope = (q.channel, record { item = r; frame = frame }) in
            elim (is_batch_full batch frame w₁) [
              | false ↦ process_loop ios qs n (batch ++ (item ∷ [])) w₁
              | true ↦
                  let done = flush ios n batch w₁ in
                  elim (done.0) [
                    | ok _ ↦ prepend (done.1) (process_loop ios qs (done.2) (item ∷ []) (done.3))
                    | err e ↦ (done.1 ++ map (refuse e) (q ∷ qs), done.3)
                  ]
            ]
      ]

  unfoldable pub process_append_requests : (ℕ → CommitIo) → List Request → Wal → List Answer × Wal
  process_append_requests ios requests w = process_loop ios requests 0 [] w
