-- ===== src/Wal/Log/Read.antt =====
-- runtime/go/internal/spool/wal_recovery.go: `readRecordLocked`.
use node_flow.Prelude.{
  ℕ, ◌+◌, ◌-◌, ◌^◌, ◌<◌, ◌≡◌, sym, ap, Bool, true, false, not, ◌||◌, none, some, ◌++◌, length, take,
  drop, replicate, ◌==◌, ==_self, if◌then◌else◌, Result, ok, err, lookup, arith, append-nil,
  take_exact, drop_exact,
}
use node_flow.Bytes.{Bytes}
use node_flow.Wal.Format.{
  Platform, Laws, Record, FrameKind, data_frame, commit_frame, decode_wal_frame_header,
  decode_wal_record, frame_header_size, encode_wal_frame, frame_header,
}
use node_flow.Wal.Format.RoundTrip.{
  decode_wal_frame_header-frame_header, length-frame_header, length-encode_wal_frame,
}
use node_flow.Wal.Group.{Prepared}
use node_flow.Wal.Recovery.{RecordMetadata}
use node_flow.Wal.Recovery.Groups.{IsStored, payload_of, decode_stored}
use node_flow.Wal.Log.{Wal, Segment}

pub data ReadError : Type 0 where
  missing_segment unreadable invalid_frame checksum_differs invalid_record : ReadError

abbrev is_data : FrameKind → Bool
is_data data_frame = true
is_data commit_frame = false

-- `ReadAt` into a buffer of zeros: what lies behind the end of the file stays zero.
abbrev pub read_at : ℕ → ℕ → Bytes → Bytes
read_at offset size file =
    let part = take size (drop offset file) in part ++ replicate (size - length part) 0

module _ (p : Platform) where
  -- The checks on the bytes of a frame.
  unfoldable pub read_frame : ℕ → RecordMetadata → Bytes → Result ReadError (Record p.Envelope)
  read_frame id m encoded = elim (decode_wal_frame_header p (take frame_header_size encoded)) [
    | err e ↦ err invalid_frame
    | ok (kind, sequence, payload_size, payload_checksum) ↦
        let payload = drop frame_header_size encoded in
        if not (is_data kind)
          || not (sequence == id)
          || not (frame_header_size + payload_size == m.frame_size)
        then err invalid_frame
        else if not (p.checksum payload == payload_checksum)
        then err checksum_differs
        else (elim (decode_wal_record p payload id) [
          | err e ↦ err invalid_record
          | ok r ↦ ok (record r { attempts = m.attempts })
        ])
  ]

  -- `readRecordLocked`; `opens` says whether the file is opened and read.
  unfoldable pub read_record :
      Bool → ℕ → RecordMetadata → Wal → Result ReadError (Record p.Envelope)
  read_record opens id m w = elim (lookup m.segment_id w.segments) [
    | none ↦ err missing_segment
    | some s ↦
        if opens then read_frame id m (read_at m.offset m.frame_size s.file) else err unreadable
  ]

read_at_exact :
    (front part back : Bytes) (offset size : ℕ)
    → offset ≡ length front
    → size ≡ length part
    → read_at offset size (front ++ (part ++ back)) ≡ part
read_at_exact front part back offset size eo es =
    let none_short : size - length part ≡ 0 = omega (arith, es) in
    rw
      (
        drop_exact offset front (part ++ back) (sym eo),
        take_exact size part back (sym es),
        none_short,
      )
      (append-nil part)

module _ (p : Platform) (laws : Laws p) (sb : ℕ) where
  read_frame-framed :
      (r : Prepared p.Envelope) (payload : Bytes) (m : RecordMetadata)
      → IsStored p sb r
      → p.marshal (record {
        id = r.item.id;
        enqueued_at_unix_nano = r.item.enqueued_at;
        envelope = r.item.envelope;
      })
        ≡ some payload
      → length payload < 2 ^ 32
      → m.frame_size ≡ 28 + length payload
      → read_frame p r.item.id m (encode_wal_frame p data_frame r.item.id payload)
        ≡ ok (record r.item { attempts = m.attempts })
  unfolding read_frame encode_wal_frame
  read_frame-framed r payload m s coded short size =
      let head = frame_header p data_frame r.item.id payload in
      let wide : length head ≡ 28 = length-frame_header p data_frame r.item.id payload in
      let sized : (28 + length payload == m.frame_size) ≡ true = ground (arith, size) in
      let encoded : Bytes = encode_wal_frame p data_frame r.item.id payload in
      let body : drop 28 encoded ≡ payload = drop_exact 28 head payload wide in
      rw (
        read_frame,
        take_exact 28 head payload wide,
        decode_wal_frame_header-frame_header p laws data_frame r.item.id payload s.id_lt short,
        body,
        ==_self r.item.id,
        sized,
        ==_self (p.checksum payload),
        decode_stored p sb laws r payload s coded,
      )

  -- If a record's metadata points at its frame in the file of its segment, which can be read, and the
  -- record is stored as `encodeWALDataFrame` writes it with a payload below 2^32 bytes, then
  -- `readRecordLocked` gives the record back, with the attempts of the metadata.
  pub read_record-stored :
      (r : Prepared p.Envelope) (m : RecordMetadata) (w : Wal) (s : Segment) (front back : Bytes)
      → lookup m.segment_id w.segments ≡ some s
      → s.file ≡ front ++ (r.frame ++ back)
      → m.offset ≡ length front
      → m.frame_size ≡ length r.frame
      → length r.frame < 2 ^ 32
      → IsStored p sb r
      → read_record p true r.item.id m w ≡ ok (record r.item { attempts = m.attempts })
  unfolding read_record
  read_record-stored r m w s front back here file offset size short stored =
      let (payload, coded, framed) = payload_of p sb r stored.encoded in
      let wide = length-encode_wal_frame p data_frame r.item.id payload in
      rw
        (
          read_record,
          here,
          file,
          read_at_exact front r.frame back m.offset m.frame_size offset size,
          framed,
        )
        (read_frame-framed r payload m stored coded (omega (arith, ap length framed))
          (omega (arith, ap length framed)))
