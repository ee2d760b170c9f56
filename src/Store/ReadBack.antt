-- ===== src/Store/ReadBack.antt =====
-- runtime/go/internal/spool/spool.go: theorems on `Append` and `NextAfter`.
use node_flow.Prelude.{
  ℕ, ◌+◌, ◌%◌, ◌^◌, ◌≤◌, ◌<◌, ◌≡◌, refl, sym, ap, ◌∙◌, Bool, true, some, List, [], ◌∷◌, ◌++◌,
  length, All, ◌==◌, ok, lookup, lookup-insert, arith, Option-cases, Bool-cases, inl, inr, ==_self,
  is_positive, le→ltb, lt→ltb,
}
use node_flow.Bytes.{Bytes}
use node_flow.Wal.Format.{Platform, Laws, Record}
use node_flow.Store.{
  Store, Metadata, AppendIo, active_filename, installed, append_encoded, append, new_record, read,
  next_entry, next_loop, next_after, search, found,
}
use node_flow.Store.Codec.{encode_record, decode_record, decode_record-encode_record}

search-append :
    (after k : ℕ) (ks : List ℕ)
    → All (λ j. j ≤ after) ks
    → after < k
    → search after (ks ++ (k ∷ [])) ≡ k ∷ []
unfolding search
search-append after k [] old above = rw (lt→ltb after k above)
search-append after k (j ∷ ks) old above =
    rw (le→ltb after j old.0, search) (search-append after k ks old.1 above)

module _ (p : Platform) where
  append_encoded-ok :
      (io : AppendIo) (r q : Record p.Envelope) (encoded : Bytes) (s : Store)
      → (append_encoded p io r encoded s).0 ≡ ok q
      → ((append_encoded p io r encoded s).1 ≡ installed p r.id io.allocated encoded s) × (r ≡ q)
  unfolding append_encoded
  append_encoded-ok io r q encoded s e = ground arith

  read_known :
      (k : ℕ) (m : Metadata) (t : Store) (b : Bytes) (r : Record p.Envelope)
      → lookup (active_filename k m.attempts) t.files ≡ some b
      → decode_record p b ≡ ok r
      → r.id ≡ k
      → read p true k m t ≡ ok (record r { attempts = m.attempts })
  unfolding read
  read_known k m t b r filed decoded same =
      let mine : (r.id == k) ≡ true = ground arith in rw (filed, decoded, mine)

  next_known :
      (t : Store) (after k : ℕ) (m : Metadata) (renames : Bool) (r : Record p.Envelope)
      → search after t.ids ≡ k ∷ []
      → lookup k t.active ≡ some m
      → read p true k m t ≡ ok r
      → next_after p true renames after t ≡ (found r, t)
  unfolding next_after next_loop next_entry
  next_known t after k m renames r first listed back =
      rw (first, next_loop, listed, next_entry, back)

  -- The record that was installed is found and read.
  installed-found :
      (laws : Laws p) (r : Record p.Envelope) (renames : Bool) (after allocated : ℕ)
      (encoded : Bytes) (s : Store)
      → All (λ j. j ≤ after) s.ids
      → after < r.id
      → r.attempts ≡ 0
      → encode_record p r ≡ some encoded
      → is_positive r.enqueued_at ≡ true
      → 12 < length encoded
      → length encoded < 2 ^ 32
      → next_after p true renames after (installed p r.id allocated encoded s)
        ≡ (found r, installed p r.id allocated encoded s)
  installed-found laws r renames after allocated encoded s old above untried coded time_pos
        some_byte short =
      let m : Metadata = record { attempts = 0; allocated = allocated } in
      let t : Store = installed p r.id allocated encoded s in
      let listed : lookup r.id t.active ≡ some m =
        lookup-insert r.id r.id m s.active ∙ rw (==_self r.id) in
      let filed : lookup (active_filename r.id 0) t.files ≡ some encoded =
        lookup-insert (active_filename r.id 0) (active_filename r.id 0) encoded s.files
        ∙ rw (==_self (active_filename r.id 0)) in
      let decoded : decode_record p encoded ≡ ok (record r { attempts = 0 }) =
        decode_record-encode_record p laws r encoded coded (omega arith) time_pos some_byte short in
      next_known t after r.id m renames r (search-append after r.id s.ids old above) listed (
        read_known r.id m t encoded (record r { attempts = 0 }) filed decoded refl
        ∙ ap (λ n. ok (record r { attempts = n })) (sym untried))

  -- Let no identifier of the store be above `after`, and the next one be; let the time be positive and
  -- every record's file between 13 and 2^32 - 1 bytes. If an append is answered by a record, then the
  -- search behind `after` finds that record, read back from its file, and changes nothing.
  pub append-next_after :
      (laws : Laws p) (io : AppendIo) (envelope : p.Envelope) (s : Store) (r : Record p.Envelope)
      (renames : Bool) (after : ℕ)
      → All (λ j. j ≤ after) s.ids
      → after < s.next_id
      → is_positive io.now ≡ true
      → ((q : Record p.Envelope) (b : Bytes)
          → encode_record p q ≡ some b
          → (12 < length b) × (length b < 2 ^ 32))
      → (append p io envelope s).0 ≡ ok r
      → next_after p true renames after (append p io envelope s).1
        ≡ (found r, (append p io envelope s).1)
  unfolding append
  append-next_after laws io envelope s r renames after old above time_pos sized e =
      elim (Bool-cases io.cancels) [
        | inl early ↦ absurd (ground (arith, rw (early, append) at e))
        | inr goes ↦ elim (Option-cases (encode_record p (new_record p io envelope s))) [
          | inl broken ↦ absurd (ground (arith, rw (goes, append, broken) at e))
          | inr (encoded, coded) ↦
              let inv =
                append_encoded-ok io (new_record p io envelope s) r encoded
                  (record s { next_id = (s.next_id + 1) % 2 ^ 64 })
                  (rw (goes, append, coded) at e) in
              rw (goes, append, coded, inv.0, sym inv.1)
                (installed-found laws (new_record p io envelope s) renames after io.allocated
                  encoded (record s { next_id = (s.next_id + 1) % 2 ^ 64 }) old above refl coded
                  time_pos (sized _ encoded coded).0 (sized _ encoded coded).1)
        ]
      ]
