-- ===== src/Store/Runs.antt =====
-- runtime/go/internal/spool/spool.go: runs of the operations of the legacy store.
use node_flow.Prelude.{
  ℕ, ◌+◌, ◌%◌, ◌^◌, ◌≤◌, ◌<◌, ◌≡◌, Bool, ◌||◌, none, List, [], ◌∷◌, ◌++◌, length, member, ◌==◌,
  lookup, arith, Option-cases, Bool-cases, Result-cases, inl, inr, insert-AreDistinct,
  lookup-insert_inv, sum_of-insert_new,
}
use node_flow.Bytes.{Bytes}
use node_flow.Wal.Format.{Platform, Record}
use node_flow.Store.{
  Store, StoreError, corrupt_record, Metadata, AppendIo, quarantine_locked, acknowledge, mark_retry,
  quarantine, installed, append_encoded, append, new_record, read, next_error, next_entry,
  next_loop, next_after, search,
}
use node_flow.Store.Codec.{encode_record}
use node_flow.Store.Limits.{
  Fits, Keeps-Fits, next_loop-Keeps, acknowledge-Keeps, mark_retry-Keeps, quarantine-Keeps,
  append-Fits,
}
use node_flow.Store.Books.{
  Books, size_of, compact_index-Books, quarantine_locked-Books, acknowledge-Books, mark_retry-Books,
  quarantine-Books,
}

member-append :
    (k : ℕ) (ks : List ℕ) (j : ℕ) → member k (ks ++ (j ∷ [])) ≡ (member k ks || (j == k))
member-append k [] j = ground arith
member-append k (i ∷ ks) j = ground (arith, member-append k ks j)

-- An identifier that was not given out has no record.
fresh : (s : Store) → Books s → lookup s.next_id s.active ≡ none
fresh s b = elim (Option-cases (lookup s.next_id s.active)) [
  | inl absent ↦ absent
  | inr (m, e) ↦ absurd (omega (arith, b.below s.next_id m e))
]

bumped :
    (s : Store)
    → s.next_id + 1 < 2 ^ 64
    → Books s
    → Books (record s { next_id = (s.next_id + 1) % 2 ^ 64 })
bumped s fits b = record {
  used = b.used;
  counted = b.counted;
  distinct = b.distinct;
  below = λ k m e. omega (arith, b.below k m e);
  listed = b.listed;
}

module _ (p : Platform) where
  installed-Books :
      (id allocated : ℕ) (encoded : Bytes) (s : Store)
      → lookup id s.active ≡ none
      → id < s.next_id
      → Books s
      → Books (installed p id allocated encoded s)
  installed-Books id allocated encoded s new out b =
      let m : Metadata = record { attempts = 0; allocated = allocated } in
      record {
        used = omega (arith, b.used, sum_of-insert_new size_of id m s.active new);
        counted = b.counted;
        distinct = insert-AreDistinct id m s.active b.distinct;
        below = λ j i found. elim (lookup-insert_inv id j m i s.active found) [
          | inl (same, is) ↦ omega (arith, same)
          | inr (other, before) ↦ b.below j i before
        ];
        listed = λ j i found. elim (lookup-insert_inv id j m i s.active found) [
          | inl (same, is) ↦ ground (arith, member-append j s.ids id, same)
          | inr (other, before) ↦ ground (arith, member-append j s.ids id, b.listed j i before)
        ];
      }

  append_encoded-Books :
      (io : AppendIo) (r : Record p.Envelope) (encoded : Bytes) (s : Store)
      → lookup r.id s.active ≡ none
      → r.id < s.next_id
      → Books s
      → Books (append_encoded p io r encoded s).1
  unfolding append_encoded
  append_encoded-Books io r encoded s new out b =
      ground (arith, installed-Books r.id io.allocated encoded s new out b)

  append-Books :
      (io : AppendIo) (envelope : p.Envelope) (s : Store)
      → s.next_id + 1 < 2 ^ 64
      → Books s
      → Books (append p io envelope s).1
  unfolding append
  append-Books io envelope s fits b = elim (Bool-cases io.cancels) [
    | inl early ↦ rw (early, append) b
    | inr goes ↦
        rw (goes, append)
          (elim (Option-cases (encode_record p (new_record p io envelope s))) [
            | inl broken ↦ rw broken (bumped s fits b)
            | inr (encoded, e) ↦ rw e (
                append_encoded-Books io (new_record p io envelope s) encoded _ (fresh s b)
                  (omega arith) (bumped s fits b))
          ])
  ]

  next_error-Books :
      (renames : Bool) (k : ℕ) (x : StoreError) (s : Store)
      → Books s
      → Books (next_error p renames k x s).1
  unfolding next_error
  next_error-Books renames k corrupt_record s b =
      let after = quarantine_locked-Books renames k s b in
      elim (Result-cases (quarantine_locked renames k s).0) [
        | inl (e, failed) ↦ rw (failed, next_error) after
        | inr (u, done) ↦ rw (done, next_error) (compact_index-Books _ after)
      ]
  next_error-Books renames k x s b = b

  next_entry-Books :
      (opens renames : Bool) (k : ℕ) (m : Metadata) (s : Store)
      → Books s
      → Books (next_entry p opens renames k m s).1
  unfolding next_entry
  next_entry-Books opens renames k m s b = elim (Result-cases (read p opens k m s)) [
    | inl (x, e) ↦ rw (e, next_entry) (next_error-Books renames k x s b)
    | inr (r, e) ↦ rw (e, next_entry) b
  ]

  next_loop-Books :
      (opens renames : Bool) (ks : List ℕ) (s : Store)
      → Books s
      → Books (next_loop p opens renames ks s).1
  unfolding next_loop
  next_loop-Books opens renames [] s b = b
  next_loop-Books opens renames (k ∷ ks) s b = elim (Option-cases (lookup k s.active)) [
    | inl absent ↦ rw (absent, next_loop) (next_loop-Books opens renames ks s b)
    | inr (m, e) ↦ rw (e, next_loop) (next_entry-Books opens renames k m s b)
  ]

  -- An operation with what it meets.
  pub data Command : Type 0 where
    appends : AppendIo → p.Envelope → Command
    reads : Bool → Bool → ℕ → Command
    acknowledges : (ℕ → Bool) → Bool → List ℕ → Command
    retries : (ℕ → Bool) → Bool → List ℕ → Command
    quarantines : (ℕ → Bool) → Bool → List ℕ → Command

  unfoldable pub execute : Command → Store → Store
  execute (appends io envelope) s = (append p io envelope s).1
  execute (reads opens renames after) s = (next_after p opens renames after s).1
  execute (acknowledges removes dir_synced ks) s = (acknowledge removes dir_synced ks s).1
  execute (retries renames dir_synced ks) s = (mark_retry renames dir_synced ks s).1
  execute (quarantines renames dir_synced ks) s = (quarantine renames dir_synced ks s).1

  unfoldable pub run : List Command → Store → Store
  run [] s = s
  run (c ∷ cs) s = run cs (execute c s)

  execute-Books : (c : Command) (s : Store) → s.next_id + 1 < 2 ^ 64 → Books s → Books (execute c s)
  unfolding execute next_after
  execute-Books (appends io envelope) s fits b = append-Books io envelope s fits b
  execute-Books (reads opens renames after) s fits b =
      next_loop-Books opens renames (search after s.ids) s b
  execute-Books (acknowledges removes dir_synced ks) s fits b =
      acknowledge-Books removes dir_synced ks s b
  execute-Books (retries renames dir_synced ks) s fits b =
      mark_retry-Books renames dir_synced ks s b
  execute-Books (quarantines renames dir_synced ks) s fits b =
      quarantine-Books renames dir_synced ks s b

  execute-Fits : (c : Command) (s : Store) → Fits p s (execute c s)
  unfolding execute next_after
  execute-Fits (appends io envelope) s = append-Fits p io envelope s
  execute-Fits (reads opens renames after) s =
      Keeps-Fits p s _ (next_loop-Keeps p opens renames (search after s.ids) s)
  execute-Fits (acknowledges removes dir_synced ks) s =
      Keeps-Fits p s _ (acknowledge-Keeps removes dir_synced ks s)
  execute-Fits (retries renames dir_synced ks) s =
      Keeps-Fits p s _ (mark_retry-Keeps renames dir_synced ks s)
  execute-Fits (quarantines renames dir_synced ks) s =
      Keeps-Fits p s _ (quarantine-Keeps renames dir_synced ks s)

  -- If the books of a store are right, its used bytes are within its limit, and its identifiers do not
  -- overflow in so many operations, then after any operations, whatever the file system answers, the
  -- books are right and the used bytes are within the limit.
  pub run-Books :
      (cs : List Command) (s : Store)
      → s.next_id + length cs < 2 ^ 64
      → s.used_bytes ≤ s.max_bytes
      → Books s
      → Books (run cs s) × ((run cs s).used_bytes ≤ s.max_bytes)
  unfolding run
  run-Books [] s fits within b = (b, within)
  run-Books (c ∷ cs) s fits within b =
      let f = execute-Fits c s in
      let room = f.used_bytes within in
      let after =
        run-Books cs (execute c s) (omega (arith, f.next_id)) (omega (arith, room, f.max_bytes))
          (execute-Books c s (omega arith) b) in
      (after.0, omega (arith, after.1, f.max_bytes))
