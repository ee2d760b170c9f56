-- ===== src/Store/Codec.antt =====
-- runtime/go/internal/spool/spool.go: the file of one record.
use node_flow.Prelude.{
  ==_self, sym, ap, subst, append_assoc, append-nil, slice_exact, ℕ, ◌+◌, ◌-◌, ◌%◌, ◌^◌, ◌<◌, ◌≡◌,
  ◌∙◌, refl, true, false, not, ◌||◌, Option, none, some, [], ◌∷◌, ◌++◌, length, take, take_exact,
  drop_exact, slice, bytes_eq, ltb, ◌==◌, Result, ok, err, is_positive, arith, length-append,
  Option-cases, inl, inr,
}
use mathlib.Core.Option.{some-injective}
use node_flow.Bytes.{Bytes, put_be, get_be, word4, length-put_be}
use node_flow.Wal.Format.{Platform, Laws, Record, DiskRecord, malformed, multiple_values, reject}

-- "NFW1".
abbrev pub record_magic : Bytes
record_magic = b'N' ∷ b'F' ∷ b'W' ∷ b'1' ∷ []

pub data RecordError : Type 0 where
  invalid_header invalid_length checksum_mismatch : RecordError
  decode_failed multiple_json_values invalid_metadata : RecordError

module _ (p : Platform) where
  abbrev pub framed : Bytes → Bytes
  framed payload =
      record_magic
      ++ (put_be 4 (length payload % 2 ^ 32) ++ (payload ++ put_be 4 (p.checksum payload)))

  unfoldable pub encode_record : Record p.Envelope → Option Bytes
  encode_record r =
      elim (p.marshal
        (record { id = r.id; enqueued_at_unix_nano = r.enqueued_at; envelope = r.envelope })) [
          | none ↦ none
          | some payload ↦ some (framed payload)
        ]

  unfoldable pub decode_payload : Bytes → Result RecordError (Record p.Envelope)
  decode_payload payload = elim (p.unmarshal payload) [
    | err malformed ↦ err decode_failed
    | err multiple_values ↦ err multiple_json_values
    | ok stored ↦
        reject (stored.id == 0 || not (is_positive stored.enqueued_at_unix_nano)) invalid_metadata (
          ok (record {
            id = stored.id;
            attempts = 0;
            enqueued_at = stored.enqueued_at_unix_nano;
            envelope = stored.envelope;
          }))
  ]

  unfoldable pub decode_record : Bytes → Result RecordError (Record p.Envelope)
  decode_record data_bytes =
      reject (ltb (length data_bytes) 12 || not (bytes_eq (slice 0 4 data_bytes) record_magic))
        invalid_header
        (let size = get_be (slice 4 8 data_bytes) in
          reject (ltb size 1 || not (size == length data_bytes - 12)) invalid_length (
            let payload = slice 8 (8 + size) data_bytes in
            reject (not (p.checksum payload == get_be (slice (8 + size) (12 + size) data_bytes)))
              checksum_mismatch (decode_payload payload)))

last_part :
    (n : ℕ) (front payload sum : Bytes)
    → length front ≡ 8
    → length payload ≡ n
    → length sum ≡ 4
    → slice (8 + n) (12 + n) (front ++ (payload ++ sum)) ≡ sum
last_part n front payload sum ef ep es =
    let width : 12 + n - (8 + n) ≡ 4 = omega arith in
    let size : length (front ++ payload) ≡ 8 + n =
      omega (arith, length-append front payload, ef, ep) in
    rw (width, sym (append_assoc front payload sum), drop_exact (8 + n) (front ++ payload) sum size)
      (ap (take 4) (sym (append-nil sum)) ∙ take_exact 4 sum [] es)

module _ (p : Platform) (laws : Laws p) where
  decode_parts :
      (file payload : Bytes) (n : ℕ)
      → length file ≡ 12 + n
      → 0 < n
      → bytes_eq (slice 0 4 file) record_magic ≡ true
      → get_be (slice 4 8 file) ≡ n
      → slice 8 (8 + n) file ≡ payload
      → p.checksum payload ≡ get_be (slice (8 + n) (12 + n) file)
      → decode_record p file ≡ decode_payload p payload
  unfolding decode_record
  decode_parts file payload n len some_byte magic size body sum =
      let t₁ : ltb (length file) 12 ≡ false = ground arith in
      let t₂ : ltb n 1 ≡ false = ground arith in
      let t₃ : (n == length file - 12) ≡ true = ground arith in
      rw (
        decode_record,
        t₁,
        magic,
        size,
        t₂,
        t₃,
        body,
        sum,
        ==_self (get_be (slice (8 + n) (12 + n) file)),
      )

  decode_framed :
      (payload : Bytes)
      → 0 < length payload
      → length payload < 2 ^ 32
      → decode_record p (framed p payload) ≡ decode_payload p payload
  decode_framed payload some_byte short =
      let n = length payload in
      let (l0, l1, l2, l3, el, vl) = word4 (n % 2 ^ 32) (omega arith) in
      let (x0, x1, x2, x3, ex, vx) =
        word4 (p.checksum payload) (omega (arith, laws.checksum_lt payload)) in
      let size : Bytes = l0 ∷ l1 ∷ l2 ∷ l3 ∷ [] in
      let sum : Bytes = x0 ∷ x1 ∷ x2 ∷ x3 ∷ [] in
      rw (el, ex)
        (decode_parts (record_magic ++ (size ++ (payload ++ sum))) payload n
          (omega (arith, length-append payload sum)) some_byte refl (vl ∙ omega arith)
          (slice_exact 8 n (record_magic ++ size) payload sum refl refl)
          (sym vx
            ∙ ap get_be (sym (last_part n (record_magic ++ size) payload sum refl refl refl))))

  decode_known :
      (payload : Bytes) (stored : DiskRecord p.Envelope)
      → p.unmarshal payload ≡ ok stored
      → 0 < stored.id
      → is_positive stored.enqueued_at_unix_nano ≡ true
      → decode_payload p payload
        ≡ ok (record {
          id = stored.id;
          attempts = 0;
          enqueued_at = stored.enqueued_at_unix_nano;
          envelope = stored.envelope;
        })
  unfolding decode_payload
  decode_known payload stored e id_pos time_pos =
      let known : (stored.id == 0) ≡ false = ground arith in rw (decode_payload, e, known, time_pos)

  -- A record whose identifier and time are positive, and whose JSON has a byte at least and less than
  -- 2^32 of them, is read back from the file that `encodeRecord` writes.
  pub decode_record-encode_record :
      (r : Record p.Envelope) (b : Bytes)
      → encode_record p r ≡ some b
      → 0 < r.id
      → is_positive r.enqueued_at ≡ true
      → 12 < length b
      → length b < 2 ^ 32
      → decode_record p b ≡ ok (record r { attempts = 0 })
  unfolding encode_record
  decode_record-encode_record r b e id_pos time_pos some_byte short =
      let stored : DiskRecord p.Envelope = record {
        id = r.id;
        enqueued_at_unix_nano = r.enqueued_at;
        envelope = r.envelope;
      } in
      elim (Option-cases (p.marshal stored)) [
        | inl broken ↦ absurd (ground (arith, broken, e))
        | inr (payload, coded) ↦
            let whole : framed p payload ≡ b =
              some-injective _ _ (rw (encode_record, coded) at e) in
            let size : length b ≡ 12 + length payload =
              ap length (sym whole)
              ∙ omega (
                arith,
                length-put_be 4 (length payload % 2 ^ 32),
                length-put_be 4 (p.checksum payload),
                length-append payload (put_be 4 (p.checksum payload)),
                length-append (put_be 4 (length payload % 2 ^ 32))
                    (payload ++ put_be 4 (p.checksum payload)),
              ) in
            subst (λ t. decode_record p t ≡ ok (record r { attempts = 0 })) whole
              (decode_framed payload (omega (arith, size)) (omega (arith, size))
                ∙ decode_known payload stored (laws.unmarshal_marshal stored payload coded) id_pos
                    time_pos)
      ]
