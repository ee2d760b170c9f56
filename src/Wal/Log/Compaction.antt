-- ===== src/Wal/Log/Compaction.antt =====
-- runtime/go/internal/spool/wal_recovery.go: `compactSegmentsLocked` and the counters of the log.
use node_flow.Prelude.{
  ℕ, ◌+◌, ◌≤◌, ◌≡◌, refl, sym, ap, subst, ◌∙◌, Option, none, some, List, [], ◌∷◌, arith, lookup,
  AreDistinct, sum_of, inl, inr, ◌≢◌, sum_of-ge, Bool-cases, ltb, not, ◌&&◌,
}
use mathlib.Core.Option.{some-injective}
use node_flow.Wal.Recovery.{RecordMetadata}
use node_flow.Wal.Log.Accounts.{Accounts, IsCounted, bytes_of, in_segment, in_segment_self, refault}
use node_flow.Wal.Log.{
  Wal, Segment, CompactIo, Verdict, stays, close_fails, remove_fails, goes, compact_verdict,
  kept_segment, charge, keep_if, compact_loop, compact_segments,
}

-- The fields that the compaction leaves alone.
pub record SameRecords (v w : Wal) : Type 0 where
  pub config : v.config ≡ w.config
  pub active : v.active ≡ w.active
  pub ids : v.ids ≡ w.ids
  pub current : v.current ≡ w.current
  pub reserved_bytes : v.reserved_bytes ≡ w.reserved_bytes
  pub next_id : v.next_id ≡ w.next_id
  pub next_segment_id : v.next_segment_id ≡ w.next_segment_id

charge-SameRecords : (v : Verdict) (s : Segment) (w : Wal) → SameRecords (charge v s w) w
charge-SameRecords stays s w = ground arith
charge-SameRecords close_fails s w = ground arith
charge-SameRecords remove_fails s w = ground arith
charge-SameRecords goes s w = ground arith

keep_if-AreDistinct :
    (k : ℕ) (o : Option Segment) (rest : List (ℕ × Segment))
    → lookup k rest ≡ none
    → AreDistinct rest
    → AreDistinct (keep_if k o rest)
keep_if-AreDistinct k none rest e d = d
keep_if-AreDistinct k (some s) rest e d = (e, d)

module _ (io : CompactIo) where
  compact_loop-SameRecords :
      (segments : List (ℕ × Segment)) (w : Wal) → SameRecords (compact_loop io segments w).1 w
  unfolding compact_loop
  compact_loop-SameRecords [] w = ground arith
  compact_loop-SameRecords ((k, s) ∷ rest) w =
      let v = compact_verdict io w.current s in
      ground (arith, compact_loop-SameRecords rest (charge v s w), charge-SameRecords v s w)

  -- The bytes that leave the books are those of the segments that leave the list.
  compact_loop-used :
      (segments : List (ℕ × Segment)) (w : Wal)
      → sum_of bytes_of segments ≤ w.used_bytes
      → (compact_loop io segments w).1.used_bytes + sum_of bytes_of segments
        ≡ w.used_bytes + sum_of bytes_of (compact_loop io segments w).0
  unfolding compact_loop sum_of
  compact_loop-used [] w h = refl
  compact_loop-used ((k, s) ∷ rest) w h =
      let v = compact_verdict io w.current s in
      ground (arith, compact_loop-used rest (charge v s w))

  -- What becomes of the segment under a key.
  abbrev after_compaction : ℕ → Option Segment → Option Segment
  after_compaction current none = none
  after_compaction current (some s) = kept_segment (compact_verdict io current s) s

  lookup-compact_loop :
      (k : ℕ) (segments : List (ℕ × Segment)) (w : Wal)
      → AreDistinct segments
      → lookup k (compact_loop io segments w).0 ≡ after_compaction w.current (lookup k segments)
  unfolding compact_loop lookup
  lookup-compact_loop k [] w d = refl
  lookup-compact_loop k ((j, s) ∷ rest) w (apart, d) =
      let v = compact_verdict io w.current s in
      ground (arith, lookup-compact_loop k rest (charge v s w) d, charge-SameRecords v s w, apart)

  compact_loop-AreDistinct :
      (segments : List (ℕ × Segment)) (w : Wal)
      → AreDistinct segments
      → AreDistinct (compact_loop io segments w).0
  unfolding compact_loop
  compact_loop-AreDistinct [] w d = tt
  compact_loop-AreDistinct ((k, s) ∷ rest) w (apart, d) =
      let v = compact_verdict io w.current s in
      keep_if-AreDistinct k (kept_segment v s) _
        (lookup-compact_loop k rest (charge v s w) d
          ∙ ap (after_compaction (charge v s w).current) apart)
        (compact_loop-AreDistinct rest (charge v s w) d)

  -- A segment that goes is closed, not the current one, and has no active record.
  goes-empty :
      (current : ℕ) (s : Segment)
      → compact_verdict io current s ≡ goes
      → (s.active_records ≡ 0) × (s.id ≢ current)
  unfolding compact_verdict
  goes-empty current s e = ground arith

  kept-some : (v : Verdict) (s : Segment) → v ≢ goes → (t : Segment) × (kept_segment v s ≡ some t)
  kept-some stays s h = (s, refl)
  kept-some close_fails s h = (s, refl)
  kept-some remove_fails s h = (_, refl)
  kept-some goes s h = absurd (h refl)

  kept-IsCounted :
      (v : Verdict) (active : List (ℕ × RecordMetadata)) (k : ℕ) (s t : Segment)
      → kept_segment v s ≡ some t
      → IsCounted active k s
      → IsCounted active k t
  kept-IsCounted stays active k s t e c = subst (IsCounted active k) (some-injective _ t e) c
  kept-IsCounted close_fails active k s t e c = subst (IsCounted active k) (some-injective _ t e) c
  kept-IsCounted remove_fails active k s t e c =
      subst (IsCounted active k) (some-injective _ t e)
        (record { keyed = c.keyed; sized = c.sized; tally = c.tally })
  kept-IsCounted goes active k s t e c = cc

  before_compaction :
      (current : ℕ) (o : Option Segment) (t : Segment)
      → after_compaction current o ≡ some t
      → (s : Segment) × (o ≡ some s) × (kept_segment (compact_verdict io current s) s ≡ some t)
  before_compaction current none t e = cc
  before_compaction current (some s) t e = (s, refl, e)

  -- A segment with an active record, or the current one, stays.
  survives :
      (w : Wal) (k : ℕ) (s : Segment)
      → AreDistinct w.segments
      → lookup k w.segments ≡ some s
      → (compact_verdict io w.current s ≡ goes → ⊥)
      → (t : Segment) × (lookup k (compact_loop io w.segments w).0 ≡ some t)
  survives w k s d e h =
      let (t, kept) = kept-some (compact_verdict io w.current s) s h in
      (t, lookup-compact_loop k w.segments w d ∙ ap (after_compaction w.current) e ∙ kept)

  -- The loop's log, with the list that the loop leaves.
  compacted : Wal → Wal
  compacted w = record ((compact_loop io w.segments w).1) {
    segments = (compact_loop io w.segments w).0;
  }

  compacted-Accounts : (w : Wal) → Accounts w → Accounts (compacted w)
  unfolding compacted
  compacted-Accounts w a =
      let same : SameRecords (compact_loop io w.segments w).1 w =
        compact_loop-SameRecords w.segments w in
      record {
        used = omega (arith, a.used, compact_loop-used w.segments w (omega (arith, a.used)));
        reserved = rw (same.reserved_bytes, same.config, same.active) a.reserved;
        segments_distinct = compact_loop-AreDistinct w.segments w a.segments_distinct;
        active_distinct = rw same.active a.active_distinct;
        counted = λ k t e.
            let (s, es, kept) =
              before_compaction w.current (lookup k w.segments) t
                (sym (lookup-compact_loop k w.segments w a.segments_distinct) ∙ e) in
            rw same.active (kept-IsCounted _ w.active k s t kept (a.counted k s es));
        placed = λ k m e.
            let em : lookup k w.active ≡ some m = rw same.active at e in
            let (s, es) = a.placed k m em in
            survives w m.segment_id s a.segments_distinct es (λ gone. absurd (
              omega (
                arith,
                (goes-empty w.current s gone).0,
                (a.counted m.segment_id s es).tally,
                sum_of-ge (in_segment m.segment_id) k m w.active em,
                in_segment_self m,
              )));
        below = λ k t e.
            let (s, es, kept) =
              before_compaction w.current (lookup k w.segments) t
                (sym (lookup-compact_loop k w.segments w a.segments_distinct) ∙ e) in
            rw same.next_segment_id (a.below k s es);
        has_current =
            let (s, es) = a.has_current in
            rw same.current (
              survives w w.current s a.segments_distinct es (λ gone.
                absurd ((goes-empty w.current s gone).1 (a.counted w.current s es).keyed)));
      }

-- If the books of the log are right, they are right behind a compaction, whatever the file system
-- answers: the used bytes are those of the segments that stay, and every active record still lies in
-- one of them.
pub compact_segments-Accounts :
    (io : CompactIo) (w : Wal) → Accounts w → Accounts (compact_segments io w)
unfolding compact_segments compacted
compact_segments-Accounts io w a =
    elim (Bool-cases (ltb 0 (compact_loop io w.segments w).2 && not io.dir_synced)) [
      | inl unsynced ↦ rw unsynced (refault (compacted io w) _ (compacted-Accounts io w a))
      | inr quiet ↦ rw quiet (compacted-Accounts io w a)
    ]

-- It leaves the records alone.
pub compact_segments-SameRecords :
    (io : CompactIo) (w : Wal) → SameRecords (compact_segments io w) w
unfolding compact_segments
compact_segments-SameRecords io w = ground (arith, compact_loop-SameRecords io w.segments w)
