-- ===== src/Wal/Recovery/Groups.antt =====
-- The recovery loop over whole groups, as `commitGroup` wrote them.
use node_flow.Prelude.{
  ℕ, suc, ◌+◌, ◌^◌, ◌≤◌, ◌<◌, ◌≡◌, refl, sym, ap, subst, ◌∙◌, Bool, true, false, some, List, [],
  ◌∷◌, ◌++◌, length, length-append, append-nil, append_assoc, Result, ok, arith, is_positive,
  member, All,
}
use native.Mathlib.Nat.{add-zero, add_assoc}
use node_flow.Bytes.{Bytes}
use node_flow.Wal.Format.{
  Platform, Laws, data_frame, commit_frame, StateEntry, encode_wal_frame, encode_wal_data_frame,
  encode_wal_commit_frame, decode_wal_record, decode_wal_commit, commit_payload,
}
use node_flow.Wal.Format.RoundTrip.{
  decode_wal_commit-commit_payload, length-commit_payload, length-encode_wal_frame,
}
use node_flow.Wal.Group.{Prepared, group_data, group_first, group_last, group_commit, encode_group}
use node_flow.Wal.Recovery.{
  RecoveryError, RecoveredFrame, Committed, Pending, no_pending, first_id, last_id,
  valid_recovered_commit, publish, accept_frame,
}
use node_flow.Wal.Recovery.Scan.{Scans, frame_step}

module _ (p : Platform) (sb : ℕ) where
  -- A record that `processAppendRequests` prepared: its frame is the encoding of a record with a
  -- positive identifier and time, and fits a segment.
  pub record IsStored (r : Prepared p.Envelope) : Type 0 where
    pub encoded : encode_wal_data_frame p r.item ≡ some r.frame
    pub id_pos : 0 < r.item.id
    pub id_lt : r.item.id < 2 ^ 64
    pub time_pos : is_positive r.item.enqueued_at ≡ true
    pub fits : length r.frame ≤ sb + 28

  pub payload_of :
      (r : Prepared p.Envelope)
      → encode_wal_data_frame p r.item ≡ some r.frame
      → (payload : Bytes) × (p.marshal (record {
        id = r.item.id;
        enqueued_at_unix_nano = r.item.enqueued_at;
        envelope = r.item.envelope;
      })
          ≡ some payload)
        × (r.frame ≡ encode_wal_frame p data_frame r.item.id payload)
  unfolding encode_wal_data_frame
  payload_of r e = ground arith

  pub decode_stored :
      (laws : Laws p) (r : Prepared p.Envelope) (payload : Bytes)
      → IsStored r
      → p.marshal (record {
        id = r.item.id;
        enqueued_at_unix_nano = r.item.enqueued_at;
        envelope = r.item.envelope;
      })
        ≡ some payload
      → decode_wal_record p payload r.item.id ≡ ok (record r.item { attempts = 0 })
  unfolding decode_wal_record
  decode_stored laws r payload s e =
      rw (laws.unmarshal_marshal _ payload e, decode_wal_record)
        (ground (arith, s.id_pos, s.time_pos))

-- The frames that the loop finds for a group whose first byte stands at `offset`.
abbrev pub framed : {E : Type 0} → Prepared E → ℕ → RecoveredFrame
framed r offset = record {
  id = r.item.id;
  offset = offset;
  frame_size = length r.frame;
  encoded = r.frame;
}

module _ {E : Type 0} where
  unfoldable pub frames_at : ℕ → List (Prepared E) → List RecoveredFrame
  frames_at offset [] = []
  frames_at offset (r ∷ rs) = framed r offset ∷ frames_at (offset + length r.frame) rs

  -- No identifier of the group is among `seen` or `ids`, and none comes twice.
  abbrev pub Fresh : List ℕ → List ℕ → List (Prepared E) → Type 0
  Fresh seen ids [] = Unit
  Fresh seen ids (r ∷ rs) =
      (member r.item.id seen ≡ false)
      × (member r.item.id ids ≡ false)
      × Fresh seen (r.item.id ∷ ids) rs

  abbrev pub joined_one : Pending → ℕ → Prepared E → Pending
  joined_one q offset r = record {
    frames = q.frames ++ (framed r offset ∷ []);
    ids = r.item.id ∷ q.ids;
    bytes = q.bytes ++ r.frame;
  }

  pub joined : Pending → ℕ → List (Prepared E) → Pending
  joined q offset [] = q
  joined q offset (r ∷ rs) = joined (joined_one q offset r) (offset + length r.frame) rs

  joined_frames :
      (q : Pending) (offset : ℕ) (rs : List (Prepared E))
      → (joined q offset rs).frames ≡ q.frames ++ frames_at offset rs
  unfolding joined frames_at
  joined_frames q offset [] = sym (append-nil q.frames)
  joined_frames q offset (r ∷ rs) =
      joined_frames (joined_one q offset r) (offset + length r.frame) rs
      ∙ append_assoc q.frames (framed r offset ∷ []) _

  joined_bytes :
      (q : Pending) (offset : ℕ) (rs : List (Prepared E))
      → (joined q offset rs).bytes ≡ q.bytes ++ group_data rs
  unfolding joined
  joined_bytes q offset [] = sym (append-nil q.bytes)
  joined_bytes q offset (r ∷ rs) =
      joined_bytes (joined_one q offset r) (offset + length r.frame) rs
      ∙ append_assoc q.bytes r.frame (group_data rs)

  length-frames_at :
      (offset : ℕ) (rs : List (Prepared E)) → length (frames_at offset rs) ≡ length rs
  unfolding frames_at
  length-frames_at offset [] = refl
  length-frames_at offset (r ∷ rs) = ap suc (length-frames_at (offset + length r.frame) rs)

  first_id-frames_at :
      (offset : ℕ) (rs : List (Prepared E)) → first_id (frames_at offset rs) ≡ group_first rs
  unfolding frames_at
  first_id-frames_at offset [] = refl
  first_id-frames_at offset (r ∷ rs) = refl

  last_id-frames_at :
      (offset : ℕ) (rs : List (Prepared E)) → last_id (frames_at offset rs) ≡ group_last rs
  unfolding frames_at
  last_id-frames_at offset [] = refl
  last_id-frames_at offset (r ∷ []) = refl
  last_id-frames_at offset (r ∷ s ∷ rs) = last_id-frames_at (offset + length r.frame) (s ∷ rs)

-- A group's bytes are its data frames and its marker.
module _ (p : Platform) where
  abbrev pub marker : List (Prepared p.Envelope) → Bytes
  marker rs = encode_wal_frame p commit_frame (group_last rs) (commit_payload p (group_commit p rs))

  pub encode_group_lem :
      (rs : List (Prepared p.Envelope)) → encode_group p rs ≡ group_data rs ++ marker rs
  unfolding encode_group encode_wal_commit_frame group_commit
  encode_group_lem rs = refl

-- A group that `commitGroup` may write behind what has been read: not empty, of sizes that fit the
-- marker's 32-bit fields, and of new identifiers.
pub record IsGroup (p : Platform) (sb : ℕ) (seen : List ℕ) (rs : List (Prepared p.Envelope))
    : Type 0 where
  pub some_record : 0 < length rs
  pub count : length rs < 2 ^ 32
  pub size : length (group_data rs) < 2 ^ 32
  pub last_lt : group_last rs < 2 ^ 64
  pub first_lt : group_first rs < 2 ^ 64
  pub stored : All (IsStored p sb) rs
  pub fresh : Fresh seen [] rs

-- The state behind a group whose first byte stands at `offset`.
module _ (p : Platform) (segment_id : ℕ) (states : List (ℕ × StateEntry)) where
  unfoldable pub replay_group : Committed → ℕ → List (Prepared p.Envelope) → Committed
  replay_group c offset rs = record (publish p segment_id states (frames_at offset rs) c) {
    committed_offset = offset + length (encode_group p rs);
  }

module _ (p : Platform) (segment_id : ℕ) (states : List (ℕ × StateEntry)) (sb : ℕ) where
  pub accept_data :
      (laws : Laws p) (r : Prepared p.Envelope) (payload : Bytes) (offset : ℕ) (c : Committed)
      (q : Pending)
      → IsStored p sb r
      → p.marshal (record {
        id = r.item.id;
        enqueued_at_unix_nano = r.item.enqueued_at;
        envelope = r.item.envelope;
      })
        ≡ some payload
      → member r.item.id c.seen_ids ≡ false
      → member r.item.id q.ids ≡ false
      → accept_frame p segment_id states data_frame r.item.id r.frame payload offset c q
        ≡ ok (c, joined_one q offset r)
  unfolding accept_frame
  accept_data laws r payload offset c q s e unseen apart =
      rw (unseen, apart, decode_stored p sb laws r payload s e)

  module _ (laws : Laws p) (sb_fits : sb < 2 ^ 32) where
    -- A stored record at the front joins the pending frames.
    pub scan_record :
        (x : Prepared p.Envelope) (tail : Bytes) (offset : ℕ) (c : Committed) (q : Pending)
        (r : Result RecoveryError (Committed × Bool))
        → IsStored p sb x
        → member x.item.id c.seen_ids ≡ false
        → member x.item.id q.ids ≡ false
        → Scans p segment_id states sb tail (offset + length x.frame) c (joined_one q offset x) r
        → Scans p segment_id states sb (x.frame ++ tail) offset c q r
    scan_record x tail offset c q r s unseen apart next =
        let (payload, e, ef) = payload_of p sb x s.encoded in
        let size : length payload ≤ sb =
          omega
            (arith, s.fits, ap length ef, length-encode_wal_frame p data_frame x.item.id payload) in
        subst (λ (frame : Bytes). Scans p segment_id states sb (frame ++ tail) offset c q r)
          (sym ef)
          (frame_step p segment_id states sb laws sb_fits data_frame x.item.id payload tail offset c
            q c (joined_one q offset x) r s.id_lt size
            (rw (← ef) (accept_data laws x payload offset c q s e unseen apart)) (rw (← ef) next))

    scan_data :
        (rs : List (Prepared p.Envelope)) (tail : Bytes) (offset : ℕ) (c : Committed) (q : Pending)
        (r : Result RecoveryError (Committed × Bool))
        → All (IsStored p sb) rs
        → Fresh c.seen_ids q.ids rs
        → Scans p segment_id states sb tail
            (offset + length (group_data rs))
            c
            (joined q offset rs)
            r
        → Scans p segment_id states sb (group_data rs ++ tail) offset c q r
    unfolding joined
    scan_data [] tail offset c q r stored fresh next = rw add-zero at next
    scan_data (x ∷ rs) tail offset c q r stored fresh next =
        rw (append_assoc x.frame (group_data rs) tail) (
          scan_record x (group_data rs ++ tail) offset c q r stored.0 fresh.0 fresh.1 (
            scan_data rs tail (offset + length x.frame) c (joined_one q offset x) r stored.1 fresh.2
              (rw
                (
                  add_assoc offset (length x.frame) (length (group_data rs)),
                  ← length-append x.frame (group_data rs),
                )
                next)))

    valid_commit :
        (rs : List (Prepared p.Envelope)) (offset : ℕ)
        → 0 < length rs
        → length rs < 2 ^ 32
        → length (group_data rs) < 2 ^ 32
        → valid_recovered_commit p
            (group_commit p rs)
            (frames_at offset rs)
            (group_data rs)
            (group_last rs)
          ≡ true
    unfolding valid_recovered_commit group_commit frames_at
    valid_commit [] offset some_record count size = absurd (omega arith)
    valid_commit (r ∷ rs) offset some_record count size =
        ground
          (arith, length-frames_at (offset + length r.frame) rs, last_id-frames_at offset (r ∷ rs))

    decoded_marker :
        (rs : List (Prepared p.Envelope)) {seen : List ℕ}
        → IsGroup p sb seen rs
        → decode_wal_commit (commit_payload p (group_commit p rs)) ≡ ok (group_commit p rs)
    unfolding group_commit
    decoded_marker rs g =
        decode_wal_commit-commit_payload p (group_commit p rs) g.first_lt g.last_lt (omega arith)
          (omega arith) (omega (arith, laws.checksum_lt (group_data rs)))

    accept_commit :
        (rs : List (Prepared p.Envelope)) (offset : ℕ) (c : Committed)
        → IsGroup p sb c.seen_ids rs
        → accept_frame p segment_id states commit_frame
            (group_last rs)
            (marker p rs)
            (commit_payload p (group_commit p rs))
            (offset + length (group_data rs))
            c
            (joined no_pending offset rs)
          ≡ ok (replay_group p segment_id states c offset rs, no_pending)
    unfolding accept_frame replay_group
    accept_commit rs offset c g = rw (
      decoded_marker rs g,
      joined_frames no_pending offset rs,
      joined_bytes no_pending offset rs,
      accept_frame,
      valid_commit rs offset g.some_record g.count g.size,
      encode_group_lem p rs,
      length-append (group_data rs) (marker p rs),
      ← add_assoc offset (length (group_data rs)) (length (marker p rs)),
    )

  module _ (laws : Laws p) (sb_fits : sb < 2 ^ 32) (sb_min : 28 ≤ sb) where
    -- A whole group is published, whatever follows it.
    pub scan_group :
        (rs : List (Prepared p.Envelope)) (tail : Bytes) (offset : ℕ) (c : Committed)
        (r : Result RecoveryError (Committed × Bool))
        → IsGroup p sb c.seen_ids rs
        → Scans p segment_id states sb tail
            (offset + length (encode_group p rs))
            (replay_group p segment_id states c offset rs)
            no_pending
            r
        → Scans p segment_id states sb (encode_group p rs ++ tail) offset c no_pending r
    scan_group rs tail offset c r g next =
        let payload : Bytes = commit_payload p (group_commit p rs) in
        rw (encode_group_lem p rs, append_assoc (group_data rs) (marker p rs) tail)
          (scan_data laws sb_fits rs (marker p rs ++ tail) offset c no_pending r g.stored g.fresh (
            frame_step p segment_id states sb laws sb_fits commit_frame (group_last rs) payload tail
              (offset + length (group_data rs)) c (joined no_pending offset rs)
              (replay_group p segment_id states c offset rs) no_pending r g.last_lt
              (omega (arith, length-commit_payload p (group_commit p rs), sb_min))
              (accept_commit laws sb_fits rs offset c g)
              (rw
                (
                  add_assoc offset (length (group_data rs)) (length (marker p rs)),
                  ← length-append (group_data rs) (marker p rs),
                  ← encode_group_lem p rs,
                )
                next)))
