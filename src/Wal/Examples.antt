-- ===== src/Wal/Examples.antt =====
-- The theorems of the log at concrete inputs, over a small stand-in for encoding/json and CRC-32.
use node_flow.Prelude.{
  ℕ, ◌%◌, ◌^◌, ◌<◌, ◌≡◌, refl, true, false, Option, none, some, List, [], ◌∷◌, ◌++◌, length, drop,
  member, length-append, Result, ok, err, if◌then◌else◌, ◌==◌, pos, negsuc, arith, lookup,
}
use node_flow.Bytes.{Bytes, put_be}
use node_flow.Wal.Format.{
  Platform, Laws, JsonError, malformed, DiskRecord, Commit, StateEntry, data_frame, ack, retry,
  encode_wal_frame, encode_wal_data_frame, frame_header, decode_wal_frame_header, commit_payload,
  decode_wal_commit, encode_wal_state_entry, decode_wal_state_entry, encode_wal_segment_header,
  encode_wal_state_header, encode_wal_commit_frame, decode_wal_segment_header,
  decode_wal_state_header, id_mismatch,
}
use node_flow.Wal.Format.RoundTrip.{
  decode_wal_frame_header-frame_header, decode_wal_state_entry-encode,
  decode_wal_commit-commit_payload, length-encode_wal_frame, decode_wal_headers-encode,
}
use node_flow.Wal.Group.{Prepared, encode_group, group_commit}
use node_flow.Wal.Log.{Wal, Segment}
use node_flow.Wal.Log.Read.{read_record, read_record-stored}
use node_flow.Wal.Recovery.{
  RecordMetadata, Committed, recover_segment, recover_state, incomplete_non_final_tail,
}
use node_flow.Wal.Recovery.Groups.{IsStored, IsGroup}
use node_flow.Wal.Recovery.Crash.{
  AreGroups, groups_data, replay_groups, recover_segment-torn, recover_segment-whole,
  recover_segment-torn_early,
}
use node_flow.Wal.Recovery.Checkpoint.{entries_data, last_entry, recover_state-torn}
use node_flow.Wal.Recovery.Active.{
  recovered_in, replay_groups-active, AreUsed, replay_groups-AreUsed,
}

toy_marshal : DiskRecord ℕ → Option Bytes
toy_marshal r = elim r.enqueued_at_unix_nano [
  | pos t ↦ some (r.id ∷ t ∷ r.envelope ∷ [])
  | negsuc t ↦ none
]

toy_unmarshal : Bytes → Result JsonError (DiskRecord ℕ)
toy_unmarshal (a ∷ t ∷ e ∷ []) = ok (record { id = a; enqueued_at_unix_nano = pos t; envelope = e })
toy_unmarshal _ = err malformed

abbrev toy : Platform
toy = record {
  Envelope = ℕ;
  checksum = λ b. length b % 2 ^ 32;
  marshal = toy_marshal;
  unmarshal = toy_unmarshal;
}

toy_reads : (r : DiskRecord ℕ) (b : Bytes) → toy_marshal r ≡ some b → toy_unmarshal b ≡ ok r
unfolding toy_marshal toy_unmarshal
toy_reads r b e = ground arith

toy_laws : Laws toy
toy_laws = record { checksum_lt = λ b. omega arith; unmarshal_marshal = toy_reads }

abbrev payload : ℕ → Bytes
payload k = k ∷ 5 ∷ 7 ∷ []

abbrev stored : ℕ → Prepared ℕ
stored k = record {
  item = record { id = k; attempts = 0; enqueued_at = pos 5; envelope = 7 };
  frame = encode_wal_frame toy data_frame k (payload k);
}

stored-IsStored : (k : ℕ) → 0 < k → k < 2 ^ 64 → IsStored toy 1000 (stored k)
unfolding encode_wal_data_frame toy_marshal
stored-IsStored k above below = record {
  encoded = refl;
  id_pos = above;
  id_lt = below;
  time_pos = refl;
  fits = omega (arith, length-encode_wal_frame toy data_frame k (payload k));
}

single-IsGroup :
    (k : ℕ) (seen : List ℕ)
    → 0 < k
    → k < 2 ^ 64
    → member k seen ≡ false
    → IsGroup toy 1000 seen (stored k ∷ [])
single-IsGroup k seen above below new = record {
  some_record = omega arith;
  count = omega arith;
  size = omega (
    arith,
    length-append (stored k).frame [],
    length-encode_wal_frame toy data_frame k (payload k),
  );
  last_lt = below;
  first_lt = below;
  stored = (stored-IsStored k above below, tt);
  fresh = (new, refl, tt);
}

abbrev no_records : Committed
no_records = record {
  seen_ids = [];
  record_ids = [];
  next_id = 1;
  active = [];
  active_records = 0;
  segment_quarantined = 0;
  quarantined = 0;
  committed_offset = 0;
}

abbrev acked : List (ℕ × StateEntry)
acked = (1, record { kind = ack; reason = 0; id = 1; attempts = 0 }) ∷ []

abbrev two_groups : List (List (Prepared ℕ))
two_groups = (stored 1 ∷ []) ∷ (stored 2 ∷ []) ∷ []

two_groups-AreGroups : AreGroups toy 1000 [] two_groups
two_groups-AreGroups = (
  single-IsGroup 1 [] (omega arith) (omega arith) refl,
  (single-IsGroup 2 (1 ∷ []) (omega arith) (omega arith) refl, tt),
)

-- The third group broke off behind its first two bytes.
torn_bytes :
    (b'N' ∷ b'F' ∷ []) ++ (b'W' ∷ drop 3 (encode_group toy (stored 3 ∷ [])))
    ≡ encode_group toy (stored 3 ∷ [])
unfolding encode_group encode_wal_frame frame_header encode_wal_commit_frame commit_payload
    group_commit put_be
torn_bytes = refl

abbrev kept : Bytes
kept = encode_wal_segment_header toy 1 9 ++ groups_data toy two_groups

recover_segment-torn_example :
    recover_segment toy 1 acked true true 1000 (kept ++ (b'N' ∷ b'F' ∷ [])) no_records
    ≡ ok (
      replay_groups toy 1 acked (record no_records { committed_offset = 32 }) 32 two_groups,
      2,
      kept,
    )
recover_segment-torn_example =
    recover_segment-torn toy toy_laws 1 acked 1000 (omega arith) (omega arith) 9 two_groups
      (stored 3 ∷ []) (b'N' ∷ b'F' ∷ []) b'W' (drop 3 (encode_group toy (stored 3 ∷ []))) no_records
      (omega arith) (omega arith) two_groups-AreGroups
      (single-IsGroup 3 (2 ∷ 1 ∷ []) (omega arith) (omega arith) refl) torn_bytes

recover_segment-torn_early_example :
    recover_segment toy 1 acked true false 1000 (kept ++ (b'N' ∷ b'F' ∷ [])) no_records
    ≡ err incomplete_non_final_tail
recover_segment-torn_early_example =
    recover_segment-torn_early toy toy_laws 1 acked 1000 (omega arith) (omega arith) true 9
      two_groups (stored 3 ∷ []) (b'N' ∷ b'F' ∷ []) b'W' (drop 3 (encode_group toy (stored 3 ∷ [])))
      no_records (omega arith) (omega arith) two_groups-AreGroups
      (single-IsGroup 3 (2 ∷ 1 ∷ []) (omega arith) (omega arith) refl) torn_bytes (omega arith)

recover_segment-whole_example :
    recover_segment toy 1 acked false false 1000 kept no_records
    ≡ ok (
      replay_groups toy 1 acked (record no_records { committed_offset = 32 }) 32 two_groups,
      0,
      kept,
    )
recover_segment-whole_example =
    recover_segment-whole toy toy_laws 1 acked 1000 (omega arith) (omega arith) false false 9
      two_groups no_records (omega arith) (omega arith) two_groups-AreGroups

replay_groups-active_example :
    lookup 2 (replay_groups toy 1 acked no_records 32 two_groups).active
    ≡ recovered_in toy 1 acked 2 32 two_groups none
unfolding lookup
replay_groups-active_example = replay_groups-active toy 1 acked 2 two_groups 32 no_records

replay_groups-AreUsed_example :
    AreUsed toy 1 acked (replay_groups toy 1 acked no_records 32 two_groups)
replay_groups-AreUsed_example =
    replay_groups-AreUsed toy 1 acked two_groups 32 no_records (omega arith) tt

abbrev one_retry : List StateEntry
one_retry = record { kind = retry; reason = 0; id = 2; attempts = 1 } ∷ []

recover_state-torn_example :
    let kept = encode_wal_state_header toy 1 ++ entries_data toy one_retry in
    (states : List (ℕ × StateEntry)) × (recover_state toy true 1 (some (kept ++ (b'N' ∷ [])))
      ≡ ok (states, length kept, 1, kept))
    × (lookup 2 states ≡ last_entry 2 one_retry none)
recover_state-torn_example =
    recover_state-torn toy toy_laws 1 2 one_retry (b'N' ∷ []) (omega arith) (omega arith)
      (omega arith)

decode_wal_frame_header-frame_header_example :
    decode_wal_frame_header toy (frame_header toy data_frame 3 (payload 3))
    ≡ ok (data_frame, 3, 3, 3)
decode_wal_frame_header-frame_header_example =
    decode_wal_frame_header-frame_header toy toy_laws data_frame 3 (payload 3) (omega arith)
      (omega arith)

decode_wal_state_entry-encode_example :
    decode_wal_state_entry toy
      (encode_wal_state_entry toy (record { kind = ack; reason = 0; id = 8; attempts = 2 }))
    ≡ ok (record { kind = ack; reason = 0; id = 8; attempts = 2 })
decode_wal_state_entry-encode_example =
    decode_wal_state_entry-encode toy toy_laws
      (record { kind = ack; reason = 0; id = 8; attempts = 2 }) (omega arith) (omega arith)

abbrev a_commit : Commit
a_commit = record { first_id = 1; last_id = 2; count = 2; data_bytes = 62; checksum = 62 }

decode_wal_commit-commit_payload_example :
    decode_wal_commit (commit_payload toy a_commit) ≡ ok a_commit
decode_wal_commit-commit_payload_example =
    decode_wal_commit-commit_payload toy a_commit (omega arith) (omega arith) (omega arith)
      (omega arith) (omega arith)

decode_wal_headers-encode_example :
    (decode_wal_segment_header toy (encode_wal_segment_header toy 3 9) 4
      ≡ (if 3 == 4 then ok tt else err id_mismatch))
    × (decode_wal_state_header toy (encode_wal_state_header toy 3) 4
        ≡ (if 3 == 4 then ok tt else err id_mismatch))
decode_wal_headers-encode_example =
    decode_wal_headers-encode toy toy_laws 3 4 9 (omega arith) (omega arith)

abbrev one_segment : Segment
one_segment = record {
  id = 1;
  size = 63;
  state_size = 24;
  record_ids = 1 ∷ [];
  active_records = 1;
  quarantined_records = 0;
  closed = false;
  state_open = true;
  file = encode_wal_segment_header toy 1 9 ++ ((stored 1).frame ++ []);
  state_file = [];
}

abbrev one_place : RecordMetadata
one_place = record { segment_id = 1; offset = 32; frame_size = 31; attempts = 2 }

abbrev one_record : Wal
one_record = record {
  config = record {
    max_bytes = 1000;
    segment_bytes = 1000;
    max_batch_records = 4;
    max_record_attempts = 3;
  };
  closed = false;
  fault = none;
  next_id = 2;
  next_segment_id = 2;
  current = 1;
  segments = (1, one_segment) ∷ [];
  active = (1, one_place) ∷ [];
  ids = 1 ∷ [];
  used_bytes = 87;
  reserved_bytes = 24;
  quarantined = 0;
}

one_header : 32 ≡ length (encode_wal_segment_header toy 1 9)
unfolding encode_wal_segment_header put_be
one_header = refl

one_frame : 31 ≡ length (stored 1).frame
unfolding encode_wal_frame frame_header put_be
one_frame = refl

finds_one : lookup 1 one_record.segments ≡ some one_segment
unfolding lookup
finds_one = refl

read_record-stored_example :
    read_record toy true 1 one_place one_record
    ≡ ok (record { id = 1; attempts = 2; enqueued_at = pos 5; envelope = 7 })
read_record-stored_example =
    read_record-stored toy toy_laws 1000 (stored 1) one_place one_record one_segment
      (encode_wal_segment_header toy 1 9) [] finds_one refl one_header one_frame
      (omega (arith, one_frame)) (stored-IsStored 1 (omega arith) (omega arith))
