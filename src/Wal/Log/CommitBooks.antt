-- ===== src/Wal/Log/CommitBooks.antt =====
-- runtime/go/internal/spool/wal.go: `commitGroup` and the counters of the log.
use node_flow.Prelude.{
  ℕ, ◌+◌, ◌-◌, ◌*◌, ◌^◌, ◌≤◌, ◌<◌, ◌≡◌, refl, sym, ap, subst, ◌∙◌, true, false, none, some, List,
  [], ◌∷◌, ◌++◌, length, length-append, take, arith, All, if◌then◌else◌, ◌==◌, lookup, insert,
  lookup-insert, Option-cases, Bool-cases, inl, inr, Result, ok, err, ◌>>=◌, ok-injective,
  Result-cases, ltb, not, ◌||◌,
}
use node_flow.Bytes.{Bytes}
use node_flow.Wal.Format.{Platform}
use node_flow.Wal.Format.RoundTrip.{length-encode_wal_segment_header}
use node_flow.Wal.Group.{Prepared, encode_group}
use node_flow.Wal.Recovery.{RecordMetadata}
use node_flow.Wal.Log.{Wal, WalError, Segment, compact_segments}
use node_flow.Wal.Log.Commit.{
  CommitIo, put_segment, new_segment, install_segment, rotate, needs_rotation, publish_record,
  publish_records, append_group, make_room, append_to_current, admit_group, commit_group, projected,
}
use node_flow.Wal.Log.Accounts.{Accounts, IsCounted, refault, replaced, installed, recorded}
use node_flow.Wal.Log.Compaction.{
  SameRecords, compact_segments-Accounts, compact_segments-SameRecords,
}

module _ {E : Type 0} where
  -- The identifiers of a group are not in use, and no two are the same.
  abbrev pub AreNew : List (ℕ × RecordMetadata) → List (Prepared E) → Type 0
  AreNew active [] = Unit
  AreNew active (r ∷ rs) =
      (lookup r.item.id active ≡ none)
      × All (λ x. (r.item.id == x.item.id) ≡ false) rs
      × AreNew active rs

  AreNew-insert :
      (k : ℕ) (m : RecordMetadata) (active : List (ℕ × RecordMetadata)) (rs : List (Prepared E))
      → All (λ x. (k == x.item.id) ≡ false) rs
      → AreNew active rs
      → AreNew (insert k m active) rs
  AreNew-insert k m active [] apart new = tt
  AreNew-insert k m active (r ∷ rs) apart new = (
    lookup-insert k r.item.id m active ∙ rw apart.0 (new.0),
    new.1,
    AreNew-insert k m active rs apart.1 new.2,
  )

first_reserve :
    (n reserved : ℕ)
    → 1 ≤ n
    → reserved + n * 24 ≡ reserved + (if ltb (n - 0) 1 then 1 else n - 0) * 24
first_reserve n reserved h = ground arith

-- The compaction of a successful rotation.
compaction_of :
    (io : CommitIo) (r : Result WalError Wal) (v : Wal)
    → (r >>= λ w. ok (compact_segments io.compaction w)) ≡ ok v
    → (u : Wal) × (r ≡ ok u) × (compact_segments io.compaction u ≡ v)
compaction_of io (ok u) v e = (u, refl, ok-injective _ v e)
compaction_of io (err x) v e = cc

-- The current segment under its own number.
own_key :
    (w : Wal) (cur : Segment)
    → Accounts w
    → lookup w.current w.segments ≡ some cur
    → (lookup cur.id w.segments ≡ some cur) × IsCounted w.active cur.id cur
own_key w cur a e =
    let c : IsCounted w.active w.current cur = a.counted w.current cur e in
    (
      subst (λ (k : ℕ). lookup k w.segments ≡ some cur) (sym c.keyed) e,
      subst (λ (k : ℕ). IsCounted w.active k cur) (sym c.keyed) c,
    )

module _ (p : Platform) where
  publish_record-Accounts :
      (offset : ℕ) (r : Prepared p.Envelope) (cur : Segment) (w : Wal)
      → Accounts w
      → 1 ≤ w.config.max_record_attempts
      → lookup w.current w.segments ≡ some cur
      → lookup r.item.id w.active ≡ none
      → Accounts (publish_record p offset r cur w)
  unfolding publish_record
  publish_record-Accounts offset r cur w a some_attempt e new =
      let (here, c) = own_key w cur a e in
      recorded w cur _ r.item.id _ _ _ a here refl c.sized refl new refl
        (first_reserve w.config.max_record_attempts w.reserved_bytes some_attempt)

  publish_records-Accounts :
      (offset : ℕ) (rs : List (Prepared p.Envelope)) (w : Wal)
      → Accounts w
      → 1 ≤ w.config.max_record_attempts
      → AreNew w.active rs
      → Accounts (publish_records p offset rs w)
  unfolding publish_records
  publish_records-Accounts offset [] w a some_attempt new = a
  publish_records-Accounts offset (r ∷ rs) w a some_attempt new =
      let (cur, e) = a.has_current in
      rw (e, publish_records)
        (publish_records-Accounts (offset + length r.frame) rs (publish_record p offset r cur w)
          (publish_record-Accounts offset r cur w a some_attempt e new.0)
          (unfold publish_record in some_attempt)
          (unfold publish_record in AreNew-insert r.item.id _ w.active rs new.1 new.2))

  append_group-Accounts :
      (io : CommitIo) (rs : List (Prepared p.Envelope)) (encoded : Bytes) (cur : Segment) (w : Wal)
      → Accounts w
      → 1 ≤ w.config.max_record_attempts
      → AreNew w.active rs
      → lookup w.current w.segments ≡ some cur
      → Accounts (append_group p io rs encoded cur w).1
  unfolding append_group
  append_group-Accounts io rs encoded cur w a some_attempt new e =
      let part : Bytes = take io.written encoded in
      let (here, c) = own_key w cur a e in
      let t : Segment = record cur { size = cur.size + length part; file = cur.file ++ part } in
      let w' : Wal = record (put_segment t w) { used_bytes = w.used_bytes + length part } in
      let a' : Accounts w' =
        replaced w cur t (w.used_bytes + length part) a here
          (record {
            keyed = refl;
            sized = omega (arith, c.sized, length-append cur.file part);
            tally = c.tally;
          })
          (omega arith) in
      elim (Bool-cases (not io.writes || not (length part == length encoded))) [
        | inl failed ↦ rw failed (refault w' _ a')
        | inr wrote ↦ rw wrote (elim (Bool-cases (not io.synced)) [
          | inl unsynced ↦ rw unsynced (refault w' _ a')
          | inr synced ↦ rw synced (publish_records-Accounts cur.size rs w' a' some_attempt new)
        ])
      ]

  -- The log behind a rotation.
  turned : CommitIo → Segment → Wal → Wal
  turned io cur w =
      let s : Segment = new_segment p w.next_segment_id io.created_at in
      record (install_segment p s (put_segment (record cur { closed = true }) w)) {
        current = w.next_segment_id;
      }

  rotate-turned :
      (io : CommitIo) (cur : Segment) (w v : Wal) → rotate p io cur w ≡ ok v → turned io cur w ≡ v
  unfolding rotate turned
  rotate-turned io cur w v done = ground arith

  turned-Accounts :
      (io : CommitIo) (cur : Segment) (w : Wal)
      → Accounts w
      → w.next_segment_id + 1 < 2 ^ 64
      → lookup w.current w.segments ≡ some cur
      → Accounts (turned io cur w)
  unfolding turned install_segment
  turned-Accounts io cur w a fits e =
      let (here, c) = own_key w cur a e in
      let shut : Segment = record cur { closed = true } in
      let w' : Wal = record w { segments = insert cur.id shut w.segments } in
      let a' : Accounts w' =
        replaced w cur shut w.used_bytes a here
          (record { keyed = refl; sized = c.sized; tally = c.tally }) refl in
      installed w' (new_segment p w.next_segment_id io.created_at) _ _ a' refl refl
        (sym (length-encode_wal_segment_header p w.next_segment_id io.created_at)) (ground arith)
        refl

  turned-same :
      (io : CommitIo) (cur : Segment) (w : Wal)
      → ((turned io cur w).active ≡ w.active) × ((turned io cur w).config ≡ w.config)
  unfolding turned install_segment
  turned-same io cur w = (refl, refl)

  make_room-Accounts :
      (io : CommitIo) (encoded : Bytes) (cur : Segment) (w v : Wal)
      → Accounts w
      → w.next_segment_id + 1 < 2 ^ 64
      → lookup w.current w.segments ≡ some cur
      → make_room p io encoded cur w ≡ ok v
      → Accounts v × (v.active ≡ w.active) × (v.config ≡ w.config)
  unfolding make_room
  make_room-Accounts io encoded cur w v a fits e done =
      elim (Bool-cases (needs_rotation p encoded cur w)) [
        | inl due ↦
            let (u, turn, rest) = compaction_of io (rotate p io cur w) v (rw due at done) in
            let same : turned io cur w ≡ u = rotate-turned io cur w u turn in
            let t : Wal = turned io cur w in
            let after : SameRecords (compact_segments io.compaction t) t =
              compact_segments-SameRecords io.compaction t in
            subst (λ (x : Wal). Accounts x × (x.active ≡ w.active) × (x.config ≡ w.config))
              (ap (compact_segments io.compaction) same ∙ rest)
              (
                compact_segments-Accounts io.compaction t (turned-Accounts io cur w a fits e),
                after.active ∙ (turned-same io cur w).0,
                after.config ∙ (turned-same io cur w).1,
              )
        | inr quiet ↦
            let same : w ≡ v = ok-injective w v (rw quiet at done) in
            subst (λ (x : Wal). Accounts x × (x.active ≡ w.active) × (x.config ≡ w.config)) same
              (a, refl, refl)
      ]

  append_to_current-Accounts :
      (io : CommitIo) (rs : List (Prepared p.Envelope)) (encoded : Bytes) (w : Wal)
      → Accounts w
      → 1 ≤ w.config.max_record_attempts
      → AreNew w.active rs
      → Accounts (append_to_current p io rs encoded w).1
  unfolding append_to_current
  append_to_current-Accounts io rs encoded w a some_attempt new =
      let (cur, e) = a.has_current in
      rw (e, append_to_current) (append_group-Accounts io rs encoded cur w a some_attempt new e)

  admit_group-Accounts :
      (io : CommitIo) (rs : List (Prepared p.Envelope)) (cur : Segment) (w : Wal)
      → Accounts w
      → 1 ≤ w.config.max_record_attempts
      → AreNew w.active rs
      → w.next_segment_id + 1 < 2 ^ 64
      → lookup w.current w.segments ≡ some cur
      → Accounts (admit_group p io rs cur w).1
  unfolding admit_group
  admit_group-Accounts io rs cur w a some_attempt new fits e =
      elim (Bool-cases (ltb w.config.max_bytes (projected p rs (encode_group p rs) cur w))) [
        | inl over ↦ rw over a
        | inr room ↦ rw room (elim (Result-cases (make_room p io (encode_group p rs) cur w)) [
          | inl (x, failed) ↦ rw failed (refault w _ a)
          | inr (v, done) ↦
              let (a', active, config) =
                make_room-Accounts io (encode_group p rs) cur w v a fits e done in
              rw done (
                append_to_current-Accounts io rs (encode_group p rs) v a' (rw config some_attempt)
                  (rw active new))
        ])
      ]

  -- If the books of a log are right, records are allowed one attempt at least, the identifiers of the
  -- group are distinct and not active, and the segments' numbers do not overflow, then the books are
  -- right behind the commit of the group: whether it is refused, fails on the way, rotates and
  -- compacts segments or publishes its records.
  pub commit_group-Accounts :
      (io : CommitIo) (rs : List (Prepared p.Envelope)) (w : Wal)
      → Accounts w
      → 1 ≤ w.config.max_record_attempts
      → AreNew w.active rs
      → w.next_segment_id + 1 < 2 ^ 64
      → Accounts (commit_group p io rs w).1
  unfolding commit_group
  commit_group-Accounts io rs w a some_attempt new fits =
      let (cur, e) = a.has_current in
      elim (Option-cases w.fault) [
        | inl sound ↦
            rw (sound, commit_group, e) (admit_group-Accounts io rs cur w a some_attempt new fits e)
        | inr (x, faulty) ↦ rw (faulty, commit_group) a
      ]
