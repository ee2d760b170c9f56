-- ===== src/Wal/Recovery/Checkpoint.antt =====
-- runtime/go/internal/spool/wal_recovery.go: theorems on `recoverState`.
use node_flow.Prelude.{
  ℕ, suc, ◌+◌, ◌-◌, ◌*◌, ◌/◌, ◌^◌, ◌≤◌, ◌<◌, ◌≡◌, refl, sym, ap, ◌∙◌, true, Option, none, some,
  List, [], ◌∷◌, ◌++◌, length, take, drop, length-append, append_assoc, append-nil, take_exact,
  drop_exact, le→ltb, ok, arith, All, lookup, insert, lookup-insert, if◌then◌else◌, ◌==◌,
}
use node_flow.Bytes.{Bytes}
use node_flow.Wal.Format.{
  Platform, Laws, StateEntry, encode_wal_state_entry, decode_wal_state_entry,
  encode_wal_state_header,
}
use node_flow.Wal.Format.RoundTrip.{
  decode_wal_state_entry-encode, decode_wal_state_header-encode, length-encode_wal_state_entry,
  length-encode_wal_state_header,
}
use node_flow.Wal.Recovery.{keep_entries, read_entries, recover_state}

-- The last entry of a record.
abbrev pub last_entry : ℕ → List StateEntry → Option StateEntry → Option StateEntry
last_entry k [] found = found
last_entry k (e ∷ es) found = last_entry k es (if e.id == k then some e else found)

abbrev pub IsEntry : StateEntry → Type 0
IsEntry e = (e.id < 2 ^ 64) × (e.attempts < 2 ^ 32)

pub replay_entries : List StateEntry → List (ℕ × StateEntry) → List (ℕ × StateEntry)
replay_entries [] states = states
replay_entries (e ∷ es) states = replay_entries es (insert e.id e states)

pub lookup-replay_entries :
    (k : ℕ) (es : List StateEntry) (states : List (ℕ × StateEntry))
    → lookup k (replay_entries es states) ≡ last_entry k es (lookup k states)
unfolding replay_entries
lookup-replay_entries k [] states = refl
lookup-replay_entries k (e ∷ es) states =
    lookup-replay_entries k es (insert e.id e states)
    ∙ ap (last_entry k es) (lookup-insert e.id k e states)

module _ (p : Platform) where
  abbrev pub entries_data : List StateEntry → Bytes
  entries_data [] = []
  entries_data (e ∷ es) = encode_wal_state_entry p e ++ entries_data es

  length-entries_data : (es : List StateEntry) → length (entries_data es) ≡ 24 * length es
  length-entries_data [] = omega arith
  length-entries_data (e ∷ es) = omega (
    arith,
    length-append (encode_wal_state_entry p e) (entries_data es),
    length-encode_wal_state_entry p e,
    length-entries_data es,
  )

  read_entries_step :
      (n : ℕ) (rest : Bytes) (e : StateEntry) (states : List (ℕ × StateEntry))
      → decode_wal_state_entry p (take 24 rest) ≡ ok e
      → read_entries p (suc n) rest states ≡ read_entries p n (drop 24 rest) (insert e.id e states)
  unfolding read_entries
  read_entries_step n rest e states h = rw (h, read_entries)

  read_entries-entries_data :
      (laws : Laws p) (es : List StateEntry) (t : Bytes) (states : List (ℕ × StateEntry))
      → All IsEntry es
      → read_entries p (length es) (entries_data es ++ t) states ≡ ok (replay_entries es states)
  unfolding read_entries replay_entries
  read_entries-entries_data laws [] t states good = refl
  read_entries-entries_data laws (e ∷ es) t states good =
      let entry : Bytes = encode_wal_state_entry p e in
      let size : length entry ≡ 24 = length-encode_wal_state_entry p e in
      rw (append_assoc entry (entries_data es) t) (
        read_entries_step (length es) (entry ++ (entries_data es ++ t)) e states (
          rw (take_exact 24 entry (entries_data es ++ t) size)
            (decode_wal_state_entry-encode p laws e good.0.0 good.0.1))
        ∙ rw (drop_exact 24 entry (entries_data es ++ t) size)
            (read_entries-entries_data laws es t (insert e.id e states) good.1))

  -- The end of `recoverState`, for a file that keeps its first `n` bytes.
  cut_part :
      (states : List (ℕ × StateEntry)) (kept t : Bytes) (n : ℕ)
      → n ≡ length kept
      → keep_entries p true (kept ++ t) n states ≡ ok (states, length kept, length t, kept)
  unfolding keep_entries
  cut_part states kept [] n e = ground (arith, append-nil kept)
  cut_part states kept (b ∷ bs) n e =
      ground (arith, length-append kept (b ∷ bs), take_exact n kept (b ∷ bs) (sym e))

  recovered :
      (laws : Laws p) (segment_id : ℕ) (es : List StateEntry) (t : Bytes)
      → segment_id < 2 ^ 64
      → All IsEntry es
      → length t < 24
      → let kept = encode_wal_state_header p segment_id ++ entries_data es in
        recover_state p true segment_id (some (kept ++ t))
        ≡ ok (replay_entries es [], length kept, length t, kept)
  unfolding recover_state
  recovered laws segment_id es t hid good short =
      let header : Bytes = encode_wal_state_header p segment_id in
      let kept : Bytes = header ++ entries_data es in
      let size : length header ≡ 24 = length-encode_wal_state_header p segment_id in
      let whole : kept ++ t ≡ header ++ (entries_data es ++ t) =
        append_assoc header (entries_data es) t in
      let front : take 24 (kept ++ t) ≡ header = rw whole (take_exact 24 header _ size) in
      let back : drop 24 (kept ++ t) ≡ entries_data es ++ t =
        rw whole (drop_exact 24 header (entries_data es ++ t) size) in
      let held : length kept ≡ 24 + 24 * length es =
        omega (arith, size, length-append header (entries_data es), length-entries_data es) in
      let long : 24 ≤ length (kept ++ t) = omega (arith, length-append kept t, held) in
      let entries : (length (kept ++ t) - 24) / 24 ≡ length es =
        omega (arith, length-append kept t, held) in
      rw
        (
          le→ltb _ 24 long,
          front,
          decode_wal_state_header-encode p laws segment_id hid,
          entries,
          back,
          read_entries-entries_data laws es t [] good,
        )
        (cut_part (replay_entries es []) kept t (24 + (length (kept ++ t) - 24) / 24 * 24)
          (omega (arith, held, entries)))

  -- If a checkpoint file holds its header, whole entries whose numbers fit their fields, and fewer
  -- than 24 bytes more, and the file system repairs the file, then the recovery gives back the last
  -- entry of each record, cuts off the bytes behind the whole entries and nothing else.
  pub recover_state-torn :
      (laws : Laws p) (segment_id k : ℕ) (es : List StateEntry) (t : Bytes)
      → segment_id < 2 ^ 64
      → All IsEntry es
      → length t < 24
      → let kept = encode_wal_state_header p segment_id ++ entries_data es in
        (states : List (ℕ × StateEntry)) × (recover_state p true segment_id (some (kept ++ t))
          ≡ ok (states, length kept, length t, kept))
        × (lookup k states ≡ last_entry k es none)
  unfolding lookup
  recover_state-torn laws segment_id k es t hid good short = (
    replay_entries es [],
    recovered laws segment_id es t hid good short,
    lookup-replay_entries k es [],
  )
