-- ===== src/Store/Examples.antt =====
-- The legacy store at concrete inputs.
use node_flow.Prelude.{
  ℕ, ◌%◌, ◌^◌, ◌≤◌, ◌<◌, ◌≡◌, refl, true, false, Option, none, some, List, [], ◌∷◌, length, Result,
  ok, err, ℤ, pos, negsuc, arith, subst, lookup, sum_of,
}
use mathlib.Core.Option.{some-injective}
use node_flow.Bytes.{Bytes, put_be}
use node_flow.Wal.Format.{Platform, Laws, DiskRecord, Record, JsonError, malformed}
use node_flow.Store.{Store, AppendIo, append_encoded, append, next_after, found}
use node_flow.Store.Codec.{encode_record, decode_record, decode_record-encode_record}
use node_flow.Store.Books.{Books}
use node_flow.Store.Runs.{
  Command, appends, reads, acknowledges, retries, quarantines, run, run-Books,
}
use node_flow.Store.ReadBack.{append-next_after}

tiny_marshal : DiskRecord ℕ → Option Bytes
tiny_marshal r = elim r.enqueued_at_unix_nano [
  | pos t ↦ some (r.id ∷ t ∷ r.envelope ∷ [])
  | negsuc t ↦ none
]

tiny_unmarshal : Bytes → Result JsonError (DiskRecord ℕ)
tiny_unmarshal (a ∷ t ∷ e ∷ []) =
    ok (record { id = a; enqueued_at_unix_nano = pos t; envelope = e })
tiny_unmarshal _ = err malformed

abbrev tiny : Platform
tiny = record {
  Envelope = ℕ;
  checksum = λ b. length b % 2 ^ 32;
  marshal = tiny_marshal;
  unmarshal = tiny_unmarshal;
}

tiny_reads : (r : DiskRecord ℕ) (b : Bytes) → tiny_marshal r ≡ some b → tiny_unmarshal b ≡ ok r
unfolding tiny_marshal tiny_unmarshal
tiny_reads r b e = ground arith

tiny_laws : Laws tiny
tiny_laws = record { checksum_lt = λ b. omega arith; unmarshal_marshal = tiny_reads }

sized_at :
    (id attempts envelope : ℕ) (time : ℤ) (b : Bytes)
    → encode_record tiny
        (record { id = id; attempts = attempts; enqueued_at = time; envelope = envelope })
      ≡ some b
    → (12 < length b) × (length b < 2 ^ 32)
unfolding encode_record tiny_marshal put_be
sized_at id attempts envelope (pos t) b e =
    subst (λ (c : Bytes). (12 < length c) × (length c < 2 ^ 32)) (some-injective _ b e)
      (omega arith, omega arith)
sized_at id attempts envelope (negsuc t) b e = absurd (ground arith)

tiny_sized :
    (q : Record ℕ) (b : Bytes)
    → encode_record tiny q ≡ some b
    → (12 < length b) × (length b < 2 ^ 32)
tiny_sized q b e = sized_at q.id q.attempts q.envelope q.enqueued_at b e

abbrev empty_store : Store
empty_store = record {
  max_bytes = 100;
  next_id = 1;
  used_bytes = 0;
  active = [];
  ids = [];
  quarantined = 0;
  files = [];
  dead = [];
}

empty_store-Books : Books empty_store
unfolding sum_of lookup
empty_store-Books = record {
  used = refl;
  counted = refl;
  distinct = tt;
  below = λ k m e. absurd (ground arith);
  listed = λ k m e. absurd (ground arith);
}

abbrev smooth : AppendIo
smooth = record {
  cancels = false;
  now = pos 5;
  writes = true;
  allocated = 40;
  closes = true;
  renames = true;
  dir_synced = true;
}

abbrev commands : List (Command tiny)
commands =
    appends smooth 7
    ∷ appends smooth 8
    ∷ appends smooth 9
    ∷ retries (λ k. true) true (1 ∷ [])
    ∷ quarantines (λ k. true) true (2 ∷ [])
    ∷ acknowledges (λ k. true) true (1 ∷ [])
    ∷ reads true true 0
    ∷ []

run-Books_example :
    Books (run tiny commands empty_store) × ((run tiny commands empty_store).used_bytes ≤ 100)
run-Books_example =
    run-Books tiny commands empty_store (omega arith) (omega arith) empty_store-Books

abbrev taken : Record ℕ
taken = record { id = 1; attempts = 0; enqueued_at = pos 5; envelope = 7 }

takes : (append tiny smooth 7 empty_store).0 ≡ ok taken
unfolding append append_encoded encode_record tiny_marshal
takes = refl

append-next_after_example :
    next_after tiny true true 0 (append tiny smooth 7 empty_store).1
    ≡ (found taken, (append tiny smooth 7 empty_store).1)
append-next_after_example =
    append-next_after tiny tiny_laws smooth 7 empty_store taken true 0 tt (omega arith) refl
      tiny_sized takes

abbrev taken_file : Bytes
taken_file = b'N' ∷ b'F' ∷ b'W' ∷ b'1' ∷ 0 ∷ 0 ∷ 0 ∷ 3 ∷ 1 ∷ 5 ∷ 7 ∷ 0 ∷ 0 ∷ 0 ∷ 3 ∷ []

encodes : encode_record tiny taken ≡ some taken_file
unfolding encode_record tiny_marshal put_be
encodes = refl

decode_record-encode_record_example : decode_record tiny taken_file ≡ ok taken
decode_record-encode_record_example =
    decode_record-encode_record tiny tiny_laws taken taken_file encodes (omega arith) refl
      (omega arith) (omega arith)
