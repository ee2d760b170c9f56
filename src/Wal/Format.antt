-- ===== src/Wal/Format.antt =====
-- runtime/go/internal/spool/wal_format.go: the bytes of segments, frames and checkpoints. A header
-- is written field by field into a zeroed slice, as the source does.
pub mod RoundTrip
use node_flow.Prelude.{
  ℕ, ◌%◌, ◌^◌, ◌<◌, ◌≡◌, Bool, true, false, not, ◌||◌, Option, none, some, [], ◌∷◌, ◌++◌, length,
  replicate, get_or, slice, copy_at, bytes_eq, ◌==◌, if◌then◌else◌, Result, ok, err, ◌>>=◌, ℤ,
  is_positive,
}
use node_flow.Bytes.{Bytes, put_be, get_be}

pub record DiskRecord (E : Type 0) : Type 0 where
  pub id : ℕ
  pub enqueued_at_unix_nano : ℤ
  pub envelope : E

-- What `json.Decoder` reports: a value that does not decode, or more than one value.
pub data JsonError : Type 0 where
  malformed multiple_values : JsonError

-- encoding/json and hash/crc32 over the type of envelopes, which the log carries unread. `unmarshal`
-- is the pair of `Decode` calls: the record, then the end of the input.
pub record Platform : Type 1 where
  pub Envelope : Type 0
  pub checksum : Bytes → ℕ
  pub marshal : DiskRecord Envelope → Option Bytes
  pub unmarshal : Bytes → Result JsonError (DiskRecord Envelope)

-- A CRC-32 is a uint32, and what encoding/json wrote it reads back.
pub record Laws (p : Platform) : Type 0 where
  pub checksum_lt : (b : Bytes) → p.checksum b < 2 ^ 32
  pub unmarshal_marshal :
      (r : DiskRecord p.Envelope) (b : Bytes) → p.marshal r ≡ some b → p.unmarshal b ≡ ok r

pub record Record (E : Type 0) : Type 0 where
  pub id : ℕ
  pub attempts : ℕ
  pub enqueued_at : ℤ
  pub envelope : E

pub data FormatError : Type 0 where
  invalid_header unsupported_version id_mismatch unsupported_kind : FormatError
  checksum_mismatch invalid_commit_length multiple_json_values : FormatError
  decode_failed invalid_metadata : FormatError

pub data FrameKind : Type 0 where
  data_frame commit_frame : FrameKind

pub data StateKind : Type 0 where
  retry ack quarantine : StateKind

pub data StateReason : Type 0 where
  none_given permanent attempts_exhausted : StateReason

pub record Commit : Type 0 where
  pub first_id : ℕ
  pub last_id : ℕ
  pub count : ℕ
  pub data_bytes : ℕ
  pub checksum : ℕ

-- The reason is kept as the byte that the entry holds: the decoder does not check it.
pub record StateEntry : Type 0 where
  pub kind : StateKind
  pub reason : ℕ
  pub id : ℕ
  pub attempts : ℕ

-- "NFWALSEG", "NFWR", "NFWSTATE" and "NFWS".
abbrev pub segment_magic : Bytes
segment_magic = b'N' ∷ b'F' ∷ b'W' ∷ b'A' ∷ b'L' ∷ b'S' ∷ b'E' ∷ b'G' ∷ []

abbrev pub frame_magic : Bytes
frame_magic = b'N' ∷ b'F' ∷ b'W' ∷ b'R' ∷ []

abbrev pub state_magic : Bytes
state_magic = b'N' ∷ b'F' ∷ b'W' ∷ b'S' ∷ b'T' ∷ b'A' ∷ b'T' ∷ b'E' ∷ []

abbrev pub state_entry_magic : Bytes
state_entry_magic = b'N' ∷ b'F' ∷ b'W' ∷ b'S' ∷ []

abbrev pub segment_header_size : ℕ
segment_header_size = 32

abbrev pub frame_header_size : ℕ
frame_header_size = 28

abbrev pub commit_payload_size : ℕ
commit_payload_size = 28

abbrev pub state_header_size : ℕ
state_header_size = 24

abbrev pub state_entry_size : ℕ
state_entry_size = 24

abbrev pub frame_kind_byte : FrameKind → ℕ
frame_kind_byte data_frame = 1
frame_kind_byte commit_frame = 2

abbrev pub frame_kind_of : ℕ → Option FrameKind
frame_kind_of b = if b == 1 then some data_frame else if b == 2 then some commit_frame else none

abbrev pub state_kind_byte : StateKind → ℕ
state_kind_byte retry = 1
state_kind_byte ack = 2
state_kind_byte quarantine = 3

abbrev pub state_kind_of : ℕ → Option StateKind
state_kind_of b =
    if b == 1
    then some retry
    else if b == 2
    then some ack
    else if b == 3
    then some quarantine
    else none

abbrev pub state_reason_byte : StateReason → ℕ
state_reason_byte none_given = 0
state_reason_byte permanent = 1
state_reason_byte attempts_exhausted = 2

-- `if test { return error }`.
abbrev pub reject {ℓ} : {E : Type 0} {A : Type ℓ} → Bool → E → Result E A → Result E A
reject true e rest = err e
reject false e rest = rest

abbrev pub or_error {ℓ} : {E : Type 0} {A : Type ℓ} → Option A → E → Result E A
or_error none e = err e
or_error (some a) e = ok a

module _ (p : Platform) where
  -- `created` is the nanoseconds of the creation time, as a uint64.
  unfoldable pub encode_wal_segment_header : ℕ → ℕ → Bytes
  encode_wal_segment_header segment_id created =
      let h : Bytes = replicate segment_header_size 0 in
      let h : Bytes = copy_at 0 segment_magic h in
      let h : Bytes = copy_at 8 (put_be 2 1) h in
      let h : Bytes = copy_at 10 (put_be 2 segment_header_size) h in
      let h : Bytes = copy_at 12 (put_be 8 segment_id) h in
      let h : Bytes = copy_at 20 (put_be 8 created) h in
      copy_at 28 (put_be 4 (p.checksum (slice 0 28 h))) h

  unfoldable pub decode_wal_segment_header : Bytes → ℕ → Result FormatError (Unit {0})
  decode_wal_segment_header h expected =
      reject (not (length h == segment_header_size) || not (bytes_eq (slice 0 8 h) segment_magic))
        invalid_header
        (reject
          (not (get_be (slice 8 10 h) == 1) || not (get_be (slice 10 12 h) == segment_header_size))
          unsupported_version
          (reject (not (get_be (slice 12 20 h) == expected)) id_mismatch (
            reject (not (p.checksum (slice 0 28 h) == get_be (slice 28 32 h))) checksum_mismatch
              (ok tt))))

  -- The 28 bytes in front of a payload.
  unfoldable pub frame_header : FrameKind → ℕ → Bytes → Bytes
  frame_header kind sequence payload =
      let h : Bytes = replicate frame_header_size 0 in
      let h : Bytes = copy_at 0 frame_magic h in
      let h : Bytes = copy_at 4 (1 ∷ []) h in
      let h : Bytes = copy_at 5 (frame_kind_byte kind ∷ []) h in
      let h : Bytes = copy_at 8 (put_be 4 (length payload % 2 ^ 32)) h in
      let h : Bytes = copy_at 12 (put_be 8 sequence) h in
      let h : Bytes = copy_at 20 (put_be 4 (p.checksum payload)) h in
      copy_at 24 (put_be 4 (p.checksum (slice 0 24 h))) h

  unfoldable pub encode_wal_frame : FrameKind → ℕ → Bytes → Bytes
  encode_wal_frame kind sequence payload = frame_header kind sequence payload ++ payload

  -- The kind, the sequence, the payload's size and its checksum.
  unfoldable pub decode_wal_frame_header : Bytes → Result FormatError (FrameKind × ℕ × ℕ × ℕ)
  decode_wal_frame_header h =
      reject (not (length h == frame_header_size) || not (bytes_eq (slice 0 4 h) frame_magic))
        invalid_header
        (reject (not (get_or h 4 0 == 1)) unsupported_version (
          or_error (frame_kind_of (get_or h 5 0)) unsupported_kind >>= λ kind.
          reject (not (p.checksum (slice 0 24 h) == get_be (slice 24 28 h))) checksum_mismatch
            (ok (kind, get_be (slice 12 20 h), get_be (slice 8 12 h), get_be (slice 20 24 h)))))

  unfoldable pub encode_wal_data_frame : Record p.Envelope → Option Bytes
  encode_wal_data_frame r =
      elim (p.marshal
        (record { id = r.id; enqueued_at_unix_nano = r.enqueued_at; envelope = r.envelope })) [
          | none ↦ none
          | some payload ↦ some (encode_wal_frame data_frame r.id payload)
        ]

  unfoldable pub commit_payload : Commit → Bytes
  commit_payload c =
      let h : Bytes = replicate commit_payload_size 0 in
      let h : Bytes = copy_at 0 (put_be 8 c.first_id) h in
      let h : Bytes = copy_at 8 (put_be 8 c.last_id) h in
      let h : Bytes = copy_at 16 (put_be 4 c.count) h in
      let h : Bytes = copy_at 20 (put_be 4 c.data_bytes) h in copy_at 24 (put_be 4 c.checksum) h

  unfoldable pub encode_wal_commit_frame : Commit → Bytes
  encode_wal_commit_frame c = encode_wal_frame commit_frame c.last_id (commit_payload c)

  unfoldable pub decode_wal_record : Bytes → ℕ → Result FormatError (Record p.Envelope)
  decode_wal_record payload expected = elim (p.unmarshal payload) [
    | err malformed ↦ err decode_failed
    | err multiple_values ↦ err multiple_json_values
    | ok stored ↦
        reject
          (stored.id == 0
            || not (stored.id == expected)
            || not (is_positive stored.enqueued_at_unix_nano))
          invalid_metadata
          (ok (record {
            id = stored.id;
            attempts = 0;
            enqueued_at = stored.enqueued_at_unix_nano;
            envelope = stored.envelope;
          }))
  ]

  unfoldable pub encode_wal_state_header : ℕ → Bytes
  encode_wal_state_header segment_id =
      let h : Bytes = replicate state_header_size 0 in
      let h : Bytes = copy_at 0 state_magic h in
      let h : Bytes = copy_at 8 (put_be 2 1) h in
      let h : Bytes = copy_at 10 (put_be 2 state_header_size) h in
      let h : Bytes = copy_at 12 (put_be 8 segment_id) h in
      copy_at 20 (put_be 4 (p.checksum (slice 0 20 h))) h

  unfoldable pub decode_wal_state_header : Bytes → ℕ → Result FormatError (Unit {0})
  decode_wal_state_header h expected =
      reject (not (length h == state_header_size) || not (bytes_eq (slice 0 8 h) state_magic))
        invalid_header
        (reject
          (not (get_be (slice 8 10 h) == 1) || not (get_be (slice 10 12 h) == state_header_size))
          unsupported_version
          (reject (not (get_be (slice 12 20 h) == expected)) id_mismatch (
            reject (not (p.checksum (slice 0 20 h) == get_be (slice 20 24 h))) checksum_mismatch
              (ok tt))))

  unfoldable pub encode_wal_state_entry : StateEntry → Bytes
  encode_wal_state_entry entry =
      let h : Bytes = replicate state_entry_size 0 in
      let h : Bytes = copy_at 0 state_entry_magic h in
      let h : Bytes = copy_at 4 (1 ∷ []) h in
      let h : Bytes = copy_at 5 (state_kind_byte entry.kind ∷ []) h in
      let h : Bytes = copy_at 6 (entry.reason ∷ []) h in
      let h : Bytes = copy_at 8 (put_be 8 entry.id) h in
      let h : Bytes = copy_at 16 (put_be 4 entry.attempts) h in
      copy_at 20 (put_be 4 (p.checksum (slice 0 20 h))) h

  unfoldable pub decode_wal_state_entry : Bytes → Result FormatError StateEntry
  decode_wal_state_entry h =
      reject (not (length h == state_entry_size) || not (bytes_eq (slice 0 4 h) state_entry_magic))
        invalid_header
        (reject (not (get_or h 4 0 == 1)) unsupported_version (
          or_error (state_kind_of (get_or h 5 0)) unsupported_kind >>= λ kind.
          reject (not (p.checksum (slice 0 20 h) == get_be (slice 20 24 h))) checksum_mismatch (
            ok (record {
              kind = kind;
              reason = get_or h 6 0;
              id = get_be (slice 8 16 h);
              attempts = get_be (slice 16 20 h);
            }))))

-- The commit marker has no checksum of its own beside its frame's.
unfoldable pub decode_wal_commit : Bytes → Result FormatError Commit
decode_wal_commit payload =
    reject (not (length payload == commit_payload_size)) invalid_commit_length (
      ok (record {
        first_id = get_be (slice 0 8 payload);
        last_id = get_be (slice 8 16 payload);
        count = get_be (slice 16 20 payload);
        data_bytes = get_be (slice 20 24 payload);
        checksum = get_be (slice 24 28 payload);
      }))
