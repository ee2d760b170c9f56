-- ===== src/Wal/Format/RoundTrip.antt =====
-- runtime/go/internal/spool/wal_format.go: theorems on encoders and decoders.
use node_flow.Prelude.{
  ℕ, ◌+◌, ◌%◌, ◌^◌, ◌<◌, ◌≡◌, refl, [], ◌∷◌, length, ok, err, ◌∙◌, arith, ==_self, ◌==◌,
  if◌then◌else◌, length-append,
}
use node_flow.Bytes.{Bytes, put_be, get_be, word2, word4, word8}
use node_flow.Wal.Format.{
  Platform, Laws, FrameKind, data_frame, commit_frame, Commit, StateEntry, StateKind, frame_header,
  encode_wal_frame, decode_wal_frame_header, commit_payload, decode_wal_commit,
  encode_wal_segment_header, decode_wal_segment_header, encode_wal_state_header,
  decode_wal_state_header, encode_wal_state_entry, decode_wal_state_entry, frame_kind_byte,
  state_kind_byte, retry, ack, quarantine, id_mismatch,
}

module _ (p : Platform) where
  read_frame :
      (kind : FrameKind) (l0 l1 l2 l3 s0 s1 s2 s3 s4 s5 s6 s7 c0 c1 c2 c3 x0 x1 x2 x3 : ℕ)
      → get_be (x0 ∷ x1 ∷ x2 ∷ x3 ∷ [])
        ≡ p.checksum (
            b'N'
            ∷ b'F'
            ∷ b'W'
            ∷ b'R'
            ∷ 1
            ∷ frame_kind_byte kind
            ∷ 0
            ∷ 0
            ∷ l0
            ∷ l1
            ∷ l2
            ∷ l3
            ∷ s0
            ∷ s1
            ∷ s2
            ∷ s3
            ∷ s4
            ∷ s5
            ∷ s6
            ∷ s7
            ∷ c0
            ∷ c1
            ∷ c2
            ∷ c3
            ∷ [])
      → decode_wal_frame_header p (
          b'N'
          ∷ b'F'
          ∷ b'W'
          ∷ b'R'
          ∷ 1
          ∷ frame_kind_byte kind
          ∷ 0
          ∷ 0
          ∷ l0
          ∷ l1
          ∷ l2
          ∷ l3
          ∷ s0
          ∷ s1
          ∷ s2
          ∷ s3
          ∷ s4
          ∷ s5
          ∷ s6
          ∷ s7
          ∷ c0
          ∷ c1
          ∷ c2
          ∷ c3
          ∷ x0
          ∷ x1
          ∷ x2
          ∷ x3
          ∷ [])
        ≡ ok (
          kind,
          get_be (s0 ∷ s1 ∷ s2 ∷ s3 ∷ s4 ∷ s5 ∷ s6 ∷ s7 ∷ []),
          get_be (l0 ∷ l1 ∷ l2 ∷ l3 ∷ []),
          get_be (c0 ∷ c1 ∷ c2 ∷ c3 ∷ []),
        )
  unfolding decode_wal_frame_header
  read_frame data_frame l0 l1 l2 l3 s0 s1 s2 s3 s4 s5 s6 s7 c0 c1 c2 c3 x0 x1 x2 x3 e =
      rw (e, ==_self)
  read_frame commit_frame l0 l1 l2 l3 s0 s1 s2 s3 s4 s5 s6 s7 c0 c1 c2 c3 x0 x1 x2 x3 e =
      rw (e, ==_self)

  read_entry :
      (kind : StateKind) (reason i0 i1 i2 i3 i4 i5 i6 i7 a0 a1 a2 a3 x0 x1 x2 x3 : ℕ)
      → get_be (x0 ∷ x1 ∷ x2 ∷ x3 ∷ [])
        ≡ p.checksum (
            b'N'
            ∷ b'F'
            ∷ b'W'
            ∷ b'S'
            ∷ 1
            ∷ state_kind_byte kind
            ∷ reason
            ∷ 0
            ∷ i0
            ∷ i1
            ∷ i2
            ∷ i3
            ∷ i4
            ∷ i5
            ∷ i6
            ∷ i7
            ∷ a0
            ∷ a1
            ∷ a2
            ∷ a3
            ∷ [])
      → decode_wal_state_entry p (
          b'N'
          ∷ b'F'
          ∷ b'W'
          ∷ b'S'
          ∷ 1
          ∷ state_kind_byte kind
          ∷ reason
          ∷ 0
          ∷ i0
          ∷ i1
          ∷ i2
          ∷ i3
          ∷ i4
          ∷ i5
          ∷ i6
          ∷ i7
          ∷ a0
          ∷ a1
          ∷ a2
          ∷ a3
          ∷ x0
          ∷ x1
          ∷ x2
          ∷ x3
          ∷ [])
        ≡ ok (record {
          kind = kind;
          reason = reason;
          id = get_be (i0 ∷ i1 ∷ i2 ∷ i3 ∷ i4 ∷ i5 ∷ i6 ∷ i7 ∷ []);
          attempts = get_be (a0 ∷ a1 ∷ a2 ∷ a3 ∷ []);
        })
  unfolding decode_wal_state_entry
  read_entry retry reason i0 i1 i2 i3 i4 i5 i6 i7 a0 a1 a2 a3 x0 x1 x2 x3 e = rw (e, ==_self)
  read_entry ack reason i0 i1 i2 i3 i4 i5 i6 i7 a0 a1 a2 a3 x0 x1 x2 x3 e = rw (e, ==_self)
  read_entry quarantine reason i0 i1 i2 i3 i4 i5 i6 i7 a0 a1 a2 a3 x0 x1 x2 x3 e = rw (e, ==_self)

  read_segment :
      (other v0 v1 z0 z1 i0 i1 i2 i3 i4 i5 i6 i7 t0 t1 t2 t3 t4 t5 t6 t7 x0 x1 x2 x3 : ℕ)
      → get_be (v0 ∷ v1 ∷ []) ≡ 1
      → get_be (z0 ∷ z1 ∷ []) ≡ 32
      → get_be (x0 ∷ x1 ∷ x2 ∷ x3 ∷ [])
        ≡ p.checksum (
            b'N' ∷ b'F' ∷ b'W' ∷ b'A' ∷ b'L' ∷ b'S' ∷ b'E' ∷ b'G' ∷ v0 ∷ v1 ∷ z0 ∷ z1 ∷ i0 ∷ i1 ∷ i2
            ∷ i3 ∷ i4 ∷ i5 ∷ i6 ∷ i7 ∷ t0 ∷ t1 ∷ t2 ∷ t3 ∷ t4 ∷ t5 ∷ t6 ∷ t7 ∷ [])
      → decode_wal_segment_header p
          (b'N' ∷ b'F' ∷ b'W' ∷ b'A' ∷ b'L' ∷ b'S' ∷ b'E' ∷ b'G' ∷ v0 ∷ v1 ∷ z0 ∷ z1 ∷ i0 ∷ i1 ∷ i2
            ∷ i3 ∷ i4 ∷ i5 ∷ i6 ∷ i7 ∷ t0 ∷ t1 ∷ t2 ∷ t3 ∷ t4 ∷ t5 ∷ t6 ∷ t7 ∷ x0 ∷ x1 ∷ x2 ∷ x3
            ∷ [])
          other
        ≡ (if get_be (i0 ∷ i1 ∷ i2 ∷ i3 ∷ i4 ∷ i5 ∷ i6 ∷ i7 ∷ []) == other
            then ok tt
            else err id_mismatch)
  unfolding decode_wal_segment_header
  read_segment other v0 v1 z0 z1 i0 i1 i2 i3 i4 i5 i6 i7 t0 t1 t2 t3 t4 t5 t6 t7 x0 x1 x2 x3 ev ez
        e =
      ground (arith, ev, ez, e)

  read_state :
      (other v0 v1 z0 z1 i0 i1 i2 i3 i4 i5 i6 i7 x0 x1 x2 x3 : ℕ)
      → get_be (v0 ∷ v1 ∷ []) ≡ 1
      → get_be (z0 ∷ z1 ∷ []) ≡ 24
      → get_be (x0 ∷ x1 ∷ x2 ∷ x3 ∷ [])
        ≡ p.checksum (
            b'N' ∷ b'F' ∷ b'W' ∷ b'S' ∷ b'T' ∷ b'A' ∷ b'T' ∷ b'E' ∷ v0 ∷ v1 ∷ z0 ∷ z1 ∷ i0 ∷ i1 ∷ i2
            ∷ i3 ∷ i4 ∷ i5 ∷ i6 ∷ i7 ∷ [])
      → decode_wal_state_header p
          (b'N' ∷ b'F' ∷ b'W' ∷ b'S' ∷ b'T' ∷ b'A' ∷ b'T' ∷ b'E' ∷ v0 ∷ v1 ∷ z0 ∷ z1 ∷ i0 ∷ i1 ∷ i2
            ∷ i3 ∷ i4 ∷ i5 ∷ i6 ∷ i7 ∷ x0 ∷ x1 ∷ x2 ∷ x3 ∷ [])
          other
        ≡ (if get_be (i0 ∷ i1 ∷ i2 ∷ i3 ∷ i4 ∷ i5 ∷ i6 ∷ i7 ∷ []) == other
            then ok tt
            else err id_mismatch)
  unfolding decode_wal_state_header
  read_state other v0 v1 z0 z1 i0 i1 i2 i3 i4 i5 i6 i7 x0 x1 x2 x3 ev ez e =
      ground (arith, ev, ez, e)

module _ (p : Platform) (laws : Laws p) where
  -- A frame's header gives back the kind, the sequence, the size of the payload and its checksum, if
  -- the sequence is below 2^64 and the size below 2^32.
  pub decode_wal_frame_header-frame_header :
      (kind : FrameKind) (sequence : ℕ) (payload : Bytes)
      → sequence < 2 ^ 64
      → length payload < 2 ^ 32
      → decode_wal_frame_header p (frame_header p kind sequence payload)
        ≡ ok (kind, sequence, length payload, p.checksum payload)
  unfolding frame_header
  decode_wal_frame_header-frame_header kind sequence payload hs hl =
      let (l0, l1, l2, l3, el, vl) = word4 (length payload % 2 ^ 32) (omega arith) in
      let (s0, s1, s2, s3, s4, s5, s6, s7, es, vs) = word8 sequence (omega arith) in
      let (c0, c1, c2, c3, ec, vc) =
        word4 (p.checksum payload) (omega (arith, laws.checksum_lt payload)) in
      let body : Bytes =
        b'N'
        ∷ b'F'
        ∷ b'W'
        ∷ b'R'
        ∷ 1
        ∷ frame_kind_byte kind
        ∷ 0
        ∷ 0
        ∷ l0
        ∷ l1
        ∷ l2
        ∷ l3
        ∷ s0
        ∷ s1
        ∷ s2
        ∷ s3
        ∷ s4
        ∷ s5
        ∷ s6
        ∷ s7
        ∷ c0
        ∷ c1
        ∷ c2
        ∷ c3
        ∷ [] in
      let (x0, x1, x2, x3, ex, vx) =
        word4 (p.checksum body) (omega (arith, laws.checksum_lt body)) in
      rw (el, es, ec, ex)
        (read_frame p kind l0 l1 l2 l3 s0 s1 s2 s3 s4 s5 s6 s7 c0 c1 c2 c3 x0 x1 x2 x3 vx
          ∙ rw (vs, vl, vc) (ground (arith, hl)))

  -- A checkpoint entry gives back its kind, its reason, its record and its attempts, if the record's
  -- identifier is below 2^64 and the attempts are below 2^32.
  pub decode_wal_state_entry-encode :
      (entry : StateEntry)
      → entry.id < 2 ^ 64
      → entry.attempts < 2 ^ 32
      → decode_wal_state_entry p (encode_wal_state_entry p entry) ≡ ok entry
  unfolding encode_wal_state_entry
  decode_wal_state_entry-encode entry hi ha =
      let kind = entry.kind in
      let reason = entry.reason in
      let (i0, i1, i2, i3, i4, i5, i6, i7, ei, vi) = word8 entry.id (omega arith) in
      let (a0, a1, a2, a3, ea, va) = word4 entry.attempts (omega arith) in
      let body : Bytes =
        b'N'
        ∷ b'F'
        ∷ b'W'
        ∷ b'S'
        ∷ 1
        ∷ state_kind_byte kind
        ∷ reason
        ∷ 0
        ∷ i0
        ∷ i1
        ∷ i2
        ∷ i3
        ∷ i4
        ∷ i5
        ∷ i6
        ∷ i7
        ∷ a0
        ∷ a1
        ∷ a2
        ∷ a3
        ∷ [] in
      let (x0, x1, x2, x3, ex, vx) =
        word4 (p.checksum body) (omega (arith, laws.checksum_lt body)) in
      rw (ei, ea, ex)
        (read_entry p kind reason i0 i1 i2 i3 i4 i5 i6 i7 a0 a1 a2 a3 x0 x1 x2 x3 vx ∙ rw (vi, va))

  read_segment_under :
      (id other created : ℕ)
      → id < 2 ^ 64
      → created < 2 ^ 64
      → decode_wal_segment_header p (encode_wal_segment_header p id created) other
        ≡ (if id == other then ok tt else err id_mismatch)
  unfolding encode_wal_segment_header
  read_segment_under id other created hi ht =
      let (v0, v1, ev, vv) = word2 1 (omega arith) in
      let (z0, z1, ez, vz) = word2 32 (omega arith) in
      let (i0, i1, i2, i3, i4, i5, i6, i7, ei, vi) = word8 id (omega arith) in
      let (t0, t1, t2, t3, t4, t5, t6, t7, et, vt) = word8 created (omega arith) in
      let body : Bytes =
        b'N' ∷ b'F' ∷ b'W' ∷ b'A' ∷ b'L' ∷ b'S' ∷ b'E' ∷ b'G' ∷ v0 ∷ v1 ∷ z0 ∷ z1 ∷ i0 ∷ i1 ∷ i2
        ∷ i3 ∷ i4 ∷ i5 ∷ i6 ∷ i7 ∷ t0 ∷ t1 ∷ t2 ∷ t3 ∷ t4 ∷ t5 ∷ t6 ∷ t7 ∷ [] in
      let (x0, x1, x2, x3, ex, vx) =
        word4 (p.checksum body) (omega (arith, laws.checksum_lt body)) in
      rw (ev, ez, ei, et, ex)
        (rw (vi) at (
          read_segment p other v0 v1 z0 z1 i0 i1 i2 i3 i4 i5 i6 i7 t0 t1 t2 t3 t4 t5 t6 t7 x0 x1 x2
            x3 vv vz vx))

  read_state_under :
      (id other : ℕ)
      → id < 2 ^ 64
      → decode_wal_state_header p (encode_wal_state_header p id) other
        ≡ (if id == other then ok tt else err id_mismatch)
  unfolding encode_wal_state_header
  read_state_under id other hi =
      let (v0, v1, ev, vv) = word2 1 (omega arith) in
      let (z0, z1, ez, vz) = word2 24 (omega arith) in
      let (i0, i1, i2, i3, i4, i5, i6, i7, ei, vi) = word8 id (omega arith) in
      let body : Bytes =
        b'N' ∷ b'F' ∷ b'W' ∷ b'S' ∷ b'T' ∷ b'A' ∷ b'T' ∷ b'E' ∷ v0 ∷ v1 ∷ z0 ∷ z1 ∷ i0 ∷ i1 ∷ i2
        ∷ i3 ∷ i4 ∷ i5 ∷ i6 ∷ i7 ∷ [] in
      let (x0, x1, x2, x3, ex, vx) =
        word4 (p.checksum body) (omega (arith, laws.checksum_lt body)) in
      rw (ev, ez, ei, ex)
        (rw (vi) at (read_state p other v0 v1 z0 z1 i0 i1 i2 i3 i4 i5 i6 i7 x0 x1 x2 x3 vv vz vx))

pub decode_wal_segment_header-encode :
    (p : Platform) (laws : Laws p) (id created : ℕ)
    → id < 2 ^ 64
    → created < 2 ^ 64
    → decode_wal_segment_header p (encode_wal_segment_header p id created) id ≡ ok tt
decode_wal_segment_header-encode p laws id created hi ht =
    read_segment_under p laws id id created hi ht ∙ rw (==_self id)

pub decode_wal_state_header-encode :
    (p : Platform) (laws : Laws p) (id : ℕ)
    → id < 2 ^ 64
    → decode_wal_state_header p (encode_wal_state_header p id) id ≡ ok tt
decode_wal_state_header-encode p laws id hi = read_state_under p laws id id hi ∙ rw (==_self id)

-- The headers of a segment and of its checkpoint file, with a number and a time below 2^64, are
-- accepted under their own number and under no other: one that belongs to another file is an
-- identifier mismatch.
pub decode_wal_headers-encode :
    (p : Platform) (laws : Laws p) (id other created : ℕ)
    → id < 2 ^ 64
    → created < 2 ^ 64
    → (decode_wal_segment_header p (encode_wal_segment_header p id created) other
        ≡ (if id == other then ok tt else err id_mismatch))
      × (decode_wal_state_header p (encode_wal_state_header p id) other
          ≡ (if id == other then ok tt else err id_mismatch))
decode_wal_headers-encode p laws id other created hi ht =
    (read_segment_under p laws id other created hi ht, read_state_under p laws id other hi)

-- A commit marker gives back its first and last identifier, its count, its size and its checksum, if
-- the identifiers are below 2^64 and the other numbers below 2^32.
pub decode_wal_commit-commit_payload :
    (p : Platform) (c : Commit)
    → c.first_id < 2 ^ 64
    → c.last_id < 2 ^ 64
    → c.count < 2 ^ 32
    → c.data_bytes < 2 ^ 32
    → c.checksum < 2 ^ 32
    → decode_wal_commit (commit_payload p c) ≡ ok c
unfolding decode_wal_commit commit_payload
decode_wal_commit-commit_payload p c hf hl hc hd hx =
    let (f0, f1, f2, f3, f4, f5, f6, f7, ef, vf) = word8 c.first_id (omega arith) in
    let (l0, l1, l2, l3, l4, l5, l6, l7, el, vl) = word8 c.last_id (omega arith) in
    let (n0, n1, n2, n3, en, vn) = word4 c.count (omega arith) in
    let (d0, d1, d2, d3, ed, vd) = word4 c.data_bytes (omega arith) in
    let (x0, x1, x2, x3, ex, vx) = word4 c.checksum (omega arith) in
    rw (ef, el, en, ed, ex) (rw (vf, vl, vn, vd, vx))

pub length-frame_header :
    (p : Platform) (kind : FrameKind) (sequence : ℕ) (payload : Bytes)
    → length (frame_header p kind sequence payload) ≡ 28
unfolding frame_header put_be
length-frame_header p kind sequence payload = refl

pub length-encode_wal_frame :
    (p : Platform) (kind : FrameKind) (sequence : ℕ) (payload : Bytes)
    → length (encode_wal_frame p kind sequence payload) ≡ 28 + length payload
unfolding encode_wal_frame
length-encode_wal_frame p kind sequence payload = omega (
  arith,
  length-append (frame_header p kind sequence payload) payload,
  length-frame_header p kind sequence payload,
)

pub length-commit_payload : (p : Platform) (c : Commit) → length (commit_payload p c) ≡ 28
unfolding commit_payload put_be
length-commit_payload p c = refl

pub length-encode_wal_state_entry :
    (p : Platform) (e : StateEntry) → length (encode_wal_state_entry p e) ≡ 24
unfolding encode_wal_state_entry put_be
length-encode_wal_state_entry p e = refl

pub length-encode_wal_state_header :
    (p : Platform) (id : ℕ) → length (encode_wal_state_header p id) ≡ 24
unfolding encode_wal_state_header put_be
length-encode_wal_state_header p id = refl

pub length-encode_wal_segment_header :
    (p : Platform) (id created : ℕ) → length (encode_wal_segment_header p id created) ≡ 32
unfolding encode_wal_segment_header put_be
length-encode_wal_segment_header p id created = refl
