-- ===== src/Wal/LogExamples.antt =====
-- The open log at concrete inputs.
use mathlib.Core.List.{Perm}
use node_flow.Prelude.{
  ℕ, ◌%◌, ◌^◌, ◌≡◌, refl, true, false, none, some, List, [], ◌∷◌, length, ok, pos, arith, lookup,
  sum_of, subst, sym,
}
use node_flow.Bytes.{put_be}
use node_flow.Wal.Format.{Platform, data_frame, encode_wal_frame, encode_wal_segment_header}
use node_flow.Wal.Group.{Prepared}
use node_flow.Wal.Log.{Wal, Segment, CompactIo, compact_segments}
use node_flow.Wal.Log.Commit.{CommitIo, Request, new_segment, commit_group, process_append_requests}
use node_flow.Wal.Log.Accounts.{Accounts, IsCounted}
use node_flow.Wal.Log.Compaction.{compact_segments-Accounts}
use node_flow.Wal.Log.CommitBooks.{commit_group-Accounts}
use node_flow.Wal.Log.Answers.{process_append_requests-answered, answered, asked}

abbrev plain : Platform
plain = record {
  Envelope = ℕ;
  checksum = λ b. length b % 2 ^ 32;
  marshal = λ r. some (r.id ∷ r.envelope ∷ []);
  unmarshal = λ b. ok (record { id = 1; enqueued_at_unix_nano = pos 1; envelope = 1 });
}

-- The first segment is full enough for a rotation behind a second commit.
abbrev start : Wal
start = record {
  config = record {
    max_bytes = 1000;
    segment_bytes = 120;
    max_batch_records = 4;
    max_record_attempts = 3;
  };
  closed = false;
  fault = none;
  next_id = 1;
  next_segment_id = 2;
  current = 1;
  segments = (1, new_segment plain 1 9) ∷ [];
  active = [];
  ids = [];
  used_bytes = 56;
  reserved_bytes = 0;
  quarantined = 0;
}

only_first :
    (k : ℕ) (s : Segment) → lookup k start.segments ≡ some s → (k ≡ 1) × (new_segment plain 1 9 ≡ s)
unfolding lookup
only_first k s e = ground arith

first_IsCounted : (k : ℕ) (s : Segment) → (k ≡ 1) × (new_segment plain 1 9 ≡ s) → IsCounted [] k s
unfolding sum_of encode_wal_segment_header put_be
first_IsCounted k s (at, is) =
    subst (λ t. IsCounted [] k t) is (record { keyed = sym at; sized = refl; tally = refl })

start-Accounts : Accounts start
unfolding sum_of lookup encode_wal_segment_header put_be
start-Accounts = record {
  used = refl;
  reserved = refl;
  segments_distinct = (refl, tt);
  active_distinct = tt;
  counted = λ k s e. first_IsCounted k s (only_first k s e);
  placed = λ k m e. absurd (ground arith);
  below = λ k s e. omega (arith, (only_first k s e).0);
  has_current = (new_segment plain 1 9, refl);
}

abbrev quiet : CompactIo
quiet = record { state_closes = λ k. true; removes = λ k. true; dir_synced = true }

abbrev obedient : CommitIo
obedient = record {
  created_at = 9;
  creates = true;
  closes = true;
  written = 1000;
  writes = true;
  synced = true;
  compaction = quiet;
}

abbrev prepared : Prepared ℕ
prepared = record {
  item = record { id = 1; attempts = 0; enqueued_at = pos 5; envelope = 7 };
  frame = encode_wal_frame plain data_frame 1 (1 ∷ 7 ∷ []);
}

abbrev after_commit : Wal
after_commit = (commit_group plain obedient (prepared ∷ []) start).1

commit_group-Accounts_example : Accounts after_commit
unfolding lookup
commit_group-Accounts_example =
    commit_group-Accounts plain obedient (prepared ∷ []) start start-Accounts (omega arith)
      (refl, tt, tt) (omega arith)

compact_segments-Accounts_example : Accounts (compact_segments quiet after_commit)
compact_segments-Accounts_example =
    compact_segments-Accounts quiet after_commit commit_group-Accounts_example

abbrev requests : List (Request plain)
requests =
    record { channel = 11; envelope = 7; stamped = pos 5 }
    ∷ record { channel = 12; envelope = 8; stamped = pos 6 }
    ∷ []

process_append_requests-answered_example :
    Perm
      (answered plain (process_append_requests plain (λ n. obedient) requests start).0)
      (asked plain requests)
process_append_requests-answered_example =
    process_append_requests-answered plain (λ n. obedient) requests start
