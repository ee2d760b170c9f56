-- ===== src/Wal/Log/Accounts.antt =====
-- runtime/go/internal/spool/wal.go: the counters of an open log.
use node_flow.Prelude.{
  ℕ, ◌+◌, ◌<◌, ◌≡◌, refl, sym, ap, subst, ◌∙◌, false, Option, none, some, List, length, arith,
  if◌then◌else◌, ◌==◌, lookup, insert, lookup-insert, AreDistinct, sum_of, Option-cases, inl, inr,
  lookup-insert_inv, sum_of-insert_new, sum_of_none, ==_self, Bool-cases, sum_of-insert_old,
  insert-AreDistinct,
}
use mathlib.Core.Path.{subst₂}
use node_flow.Wal.Recovery.{RecordMetadata}
use node_flow.Wal.Log.{Wal, WalError, Segment, remaining_reserve}

abbrev pub bytes_of : Segment → ℕ
bytes_of s = s.size + s.state_size

abbrev pub reserve_of : ℕ → RecordMetadata → ℕ
reserve_of max_attempts m = remaining_reserve max_attempts m.attempts

abbrev pub in_segment : ℕ → RecordMetadata → ℕ
in_segment k m = if m.segment_id == k then 1 else 0

-- What a segment says of itself: its key, the length of its file, and the active records in it.
pub record IsCounted (active : List (ℕ × RecordMetadata)) (k : ℕ) (s : Segment) : Type 0 where
  pub keyed : s.id ≡ k
  pub sized : s.size ≡ length s.file
  pub tally : s.active_records ≡ sum_of (in_segment k) active

-- `used_bytes` is the bytes of the segments, `reserved_bytes` the checkpoint entries that the active
-- records may still need; a segment counts its active records, and each lies in a segment.
pub record Accounts (w : Wal) : Type 0 where
  pub used : w.used_bytes ≡ sum_of bytes_of w.segments
  pub reserved : w.reserved_bytes ≡ sum_of (reserve_of w.config.max_record_attempts) w.active
  pub segments_distinct : AreDistinct w.segments
  pub active_distinct : AreDistinct w.active
  pub counted : (k : ℕ) (s : Segment) → lookup k w.segments ≡ some s → IsCounted w.active k s
  pub placed :
      (k : ℕ) (m : RecordMetadata)
      → lookup k w.active ≡ some m
      → (s : Segment) × (lookup m.segment_id w.segments ≡ some s)
  pub below : (k : ℕ) (s : Segment) → lookup k w.segments ≡ some s → k < w.next_segment_id
  pub has_current : (s : Segment) × (lookup w.current w.segments ≡ some s)

pub in_segment_self : (m : RecordMetadata) → in_segment m.segment_id m ≡ 1
in_segment_self m = ground arith

not_in_segment :
    (m : RecordMetadata) (k j : ℕ) → m.segment_id ≡ k → (k == j) ≡ false → in_segment j m ≡ 0
not_in_segment m k j here apart = ground arith

-- The books do not mention the fault.
pub refault : (w : Wal) (f : Option WalError) → Accounts w → Accounts (record w { fault = f })
refault w f a = record {
  used = a.used;
  reserved = a.reserved;
  segments_distinct = a.segments_distinct;
  active_distinct = a.active_distinct;
  counted = a.counted;
  placed = a.placed;
  below = a.below;
  has_current = a.has_current;
}

lookup_still :
    (j k : ℕ) (t : Segment) (segments : List (ℕ × Segment)) (u : Segment)
    → lookup j segments ≡ some u
    → (v : Segment) × (lookup j (insert k t segments) ≡ some v)
lookup_still j k t segments u e = elim (Bool-cases (k == j)) [
  | inl same ↦ (t, lookup-insert k j t segments ∙ rw same)
  | inr other ↦ (u, lookup-insert k j t segments ∙ rw other e)
]

-- A segment may be replaced by one that tells the truth, if the bytes follow.
pub replaced :
    (w : Wal) (s t : Segment) (used : ℕ)
    → Accounts w
    → lookup t.id w.segments ≡ some s
    → IsCounted w.active t.id t
    → used + bytes_of s ≡ w.used_bytes + bytes_of t
    → Accounts (record w { segments = insert t.id t w.segments; used_bytes = used })
replaced w s t used a e c bytes = record {
  used = omega (arith, bytes, a.used, sum_of-insert_old bytes_of t.id t s w.segments e);
  reserved = a.reserved;
  segments_distinct = insert-AreDistinct t.id t w.segments a.segments_distinct;
  active_distinct = a.active_distinct;
  counted = λ k u eu. elim (lookup-insert_inv t.id k t u w.segments eu) [
    | inl (same, this) ↦ subst₂ (IsCounted w.active) same this c
    | inr (_, old) ↦ a.counted k u old
  ];
  placed =
      λ k m em. let (u, eu) = a.placed k m em in lookup_still m.segment_id t.id t w.segments u eu;
  below = λ k u eu. elim (lookup-insert_inv t.id k t u w.segments eu) [
    | inl (same, this) ↦ subst (λ (j : ℕ). j < w.next_segment_id) same (a.below t.id s e)
    | inr (_, old) ↦ a.below k u old
  ];
  has_current = let (u, eu) = a.has_current in lookup_still w.current t.id t w.segments u eu;
}

-- A new segment joins, with the next number and no record.
pub installed :
    (w : Wal) (t : Segment) (next used : ℕ)
    → Accounts w
    → t.id ≡ w.next_segment_id
    → t.active_records ≡ 0
    → t.size ≡ length t.file
    → next ≡ w.next_segment_id + 1
    → used ≡ w.used_bytes + bytes_of t
    → Accounts (record w {
      segments = insert t.id t w.segments;
      used_bytes = used;
      next_segment_id = next;
      current = t.id;
    })
installed w t next used a en empty sized enext eused = record {
  used = omega (arith, eused, a.used, sum_of-insert_new bytes_of t.id t w.segments absent);
  reserved = a.reserved;
  segments_distinct = insert-AreDistinct t.id t w.segments a.segments_distinct;
  active_distinct = a.active_distinct;
  counted = λ k u eu. elim (lookup-insert_inv t.id k t u w.segments eu) [
    | inl (same, this) ↦ subst₂ (IsCounted w.active) same this (record {
      keyed = refl;
      sized = sized;
      tally =
          omega (arith, empty, sum_of_none (in_segment t.id) w.active a.active_distinct elsewhere);
    })
    | inr (_, old) ↦ a.counted k u old
  ];
  placed =
      λ k m em. let (u, eu) = a.placed k m em in lookup_still m.segment_id t.id t w.segments u eu;
  below = λ k u eu. elim (lookup-insert_inv t.id k t u w.segments eu) [
    | inl (same, this) ↦ omega (arith, same, en, enext)
    | inr (_, old) ↦ omega (arith, a.below k u old, enext)
  ];
  has_current = (t, lookup-insert t.id t.id t w.segments ∙ rw (==_self t.id));
}
  where
    absent : lookup t.id w.segments ≡ none
    absent = elim (Option-cases (lookup t.id w.segments)) [
      | inl e ↦ e
      | inr (s, e) ↦ absurd (omega (arith, a.below t.id s e, en))
    ]

    elsewhere : (k : ℕ) (m : RecordMetadata) → lookup k w.active ≡ some m → in_segment t.id m ≡ 0
    elsewhere k m em =
        let (s, es) = a.placed k m em in ground (arith, a.below m.segment_id s es, en)

-- A new record joins the current segment, with its whole reserve.
pub recorded :
    (w : Wal) (s t : Segment) (k : ℕ) (m : RecordMetadata) (ids : List ℕ) (reserved : ℕ)
    → Accounts w
    → lookup t.id w.segments ≡ some s
    → bytes_of t ≡ bytes_of s
    → t.size ≡ length t.file
    → t.active_records ≡ s.active_records + 1
    → lookup k w.active ≡ none
    → m.segment_id ≡ t.id
    → reserved ≡ w.reserved_bytes + reserve_of w.config.max_record_attempts m
    → Accounts (record w {
      segments = insert t.id t w.segments;
      active = insert k m w.active;
      ids = ids;
      reserved_bytes = reserved;
    })
recorded w s t k m ids reserved a es bytes sized more new here reserve = record {
  used = omega (arith, a.used, bytes, sum_of-insert_old bytes_of t.id t s w.segments es);
  reserved = omega (
    arith,
    reserve,
    a.reserved,
    sum_of-insert_new (reserve_of w.config.max_record_attempts) k m w.active new,
  );
  segments_distinct = insert-AreDistinct t.id t w.segments a.segments_distinct;
  active_distinct = insert-AreDistinct k m w.active a.active_distinct;
  counted = λ j u eu. elim (lookup-insert_inv t.id j t u w.segments eu) [
    | inl (same, this) ↦ subst₂ (IsCounted (insert k m w.active)) same this (record {
      keyed = refl;
      sized = sized;
      tally = omega (
        arith,
        more,
        (a.counted t.id s es).tally,
        sum_of-insert_new (in_segment t.id) k m w.active new,
        ap (λ (i : ℕ). in_segment i m) here,
        in_segment_self m,
      );
    })
    | inr (apart, old) ↦
        let c : IsCounted w.active j u = a.counted j u old in
        record {
          keyed = c.keyed;
          sized = c.sized;
          tally = omega (
            arith,
            c.tally,
            sum_of-insert_new (in_segment j) k m w.active new,
            not_in_segment m t.id j here apart,
          );
        }
  ];
  placed = λ j n en. elim (lookup-insert_inv k j m n w.active en) [
    | inl (same, this) ↦ (
      t,
      ap (λ (x : RecordMetadata). lookup x.segment_id (insert t.id t w.segments)) (sym this)
          ∙ ap (λ (i : ℕ). lookup i (insert t.id t w.segments)) here
          ∙ lookup-insert t.id t.id t w.segments
          ∙ rw (==_self t.id),
    )
    | inr (_, old) ↦
        let (u, eu) = a.placed j n old in lookup_still n.segment_id t.id t w.segments u eu
  ];
  below = λ j u eu. elim (lookup-insert_inv t.id j t u w.segments eu) [
    | inl (same, this) ↦ subst (λ (i : ℕ). i < w.next_segment_id) same (a.below t.id s es)
    | inr (_, old) ↦ a.below j u old
  ];
  has_current = let (u, eu) = a.has_current in lookup_still w.current t.id t w.segments u eu;
}
