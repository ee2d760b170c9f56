-- ===== src/Store/Books.antt =====
-- runtime/go/internal/spool/spool.go: the counters of the legacy store.
use node_flow.Prelude.{
  ℕ, ◌+◌, ◌-◌, ◌*◌, ◌<◌, ◌≡◌, subst, Bool, true, false, ◌||◌, none, some, List, [], ◌∷◌, length,
  member, ltb, leb, ◌==◌, lookup, insert, erase, arith, Option-cases, Bool-cases, Result-cases, inl,
  inr, AreDistinct, insert-AreDistinct, erase-AreDistinct, lookup-erase, lookup-insert_inv, sum_of,
  sum_of-insert_old, sum_of-erase, sum_of-ge, ==_iff,
}
use node_flow.Store.{
  Store, Metadata, Dead, active_filename, still_listed, compact_index, quarantine_locked,
  acknowledge_loop, acknowledge, rename_file, mark_retry_loop, mark_retry, quarantine_loop,
  quarantine,
}

abbrev pub dead_bytes : List Dead → ℕ
dead_bytes [] = 0
dead_bytes (d ∷ ds) = d.allocated + dead_bytes ds

abbrev pub size_of : Metadata → ℕ
size_of m = m.allocated

-- `used_bytes` is what the active and the quarantined files take, `quarantined` their number; an
-- active record is listed in `ids`, and its identifier was given out.
pub record Books (s : Store) : Type 0 where
  pub used : s.used_bytes ≡ sum_of size_of s.active + dead_bytes s.dead
  pub counted : s.quarantined ≡ length s.dead
  pub distinct : AreDistinct s.active
  pub below : (k : ℕ) (m : Metadata) → lookup k s.active ≡ some m → k < s.next_id
  pub listed : (k : ℕ) (m : Metadata) → lookup k s.active ≡ some m → member k s.ids ≡ true

still_listed-member :
    (active : List (ℕ × Metadata)) (ks : List ℕ) (k : ℕ) (m : Metadata)
    → lookup k active ≡ some m
    → member k ks ≡ true
    → member k (still_listed active ks) ≡ true
unfolding still_listed
still_listed-member active [] k m e h = h
still_listed-member active (j ∷ ks) k m e h = elim (Option-cases (lookup j active)) [
  | inl absent ↦
      rw (absent, still_listed)
        (still_listed-member active ks k m e (elim (Bool-cases (j == k)) [
          | inl same ↦
              let gone : lookup k active ≡ none =
                subst (λ t. lookup t active ≡ none) ((==_iff j k).0 same) absent in
              absurd (ground (arith, gone, e))
          | inr other ↦ rw other at h
        ]))
  | inr (i, present) ↦
      rw (present, still_listed)
        (elim (Bool-cases (j == k)) [
          | inl same ↦ rw same
          | inr other ↦ rw other (still_listed-member active ks k m e (rw other at h))
        ])
]

pub compact_index-Books : (s : Store) → Books s → Books (compact_index s)
unfolding compact_index
compact_index-Books s b =
    elim (Bool-cases (ltb (length s.ids) 1024 || leb (length s.ids) (length s.active * 2))) [
      | inl stays ↦ rw (compact_index, stays) b
      | inr goes ↦
          rw (compact_index, goes)
            (record {
              used = b.used;
              counted = b.counted;
              distinct = b.distinct;
              below = b.below;
              listed = λ k m e. still_listed-member s.active s.ids k m e (b.listed k m e);
            })
    ]

found_before :
    (k j : ℕ) (m : Metadata) (active : List (ℕ × Metadata))
    → lookup j (erase k active) ≡ some m
    → lookup j active ≡ some m
found_before k j m active e = ground (arith, lookup-erase k j active)

-- A record that leaves its place: deleted, or moved to the quarantine.
erased :
    (s : Store) (k : ℕ) (m : Metadata) (used : ℕ) (n : ℕ) (files : _) (dead : List Dead)
    → Books s
    → lookup k s.active ≡ some m
    → used + m.allocated + dead_bytes s.dead ≡ s.used_bytes + dead_bytes dead
    → n ≡ length dead
    → Books (record s {
      active = erase k s.active;
      used_bytes = used;
      quarantined = n;
      files = files;
      dead = dead;
    })
erased s k m used n files dead b e bytes count = record {
  used = omega (arith, bytes, b.used, sum_of-erase size_of k m s.active b.distinct e);
  counted = count;
  distinct = erase-AreDistinct k s.active b.distinct;
  below = λ j i found. b.below j i (found_before k j i s.active found);
  listed = λ j i found. b.listed j i (found_before k j i s.active found);
}

pub quarantine_locked-Books :
    (renames : Bool) (k : ℕ) (s : Store) → Books s → Books (quarantine_locked renames k s).1
unfolding quarantine_locked
quarantine_locked-Books renames k s b = elim (Option-cases (lookup k s.active)) [
  | inl absent ↦ rw (absent, quarantine_locked) b
  | inr (m, e) ↦
      rw (e, quarantine_locked)
        (elim (Bool-cases renames) [
          | inr stays ↦ rw stays b
          | inl moves ↦ rw moves (
              erased s k m s.used_bytes (s.quarantined + 1) _
                (record { name = active_filename k m.attempts; allocated = m.allocated } ∷ s.dead) b
                e (omega arith) (omega (arith, b.counted)))
        ])
]

acknowledge_loop-Books :
    (removes : ℕ → Bool) (ks : List ℕ) (changed : Bool) (s : Store)
    → Books s
    → Books (acknowledge_loop removes ks changed s).1
unfolding acknowledge_loop
acknowledge_loop-Books removes [] changed s b = b
acknowledge_loop-Books removes (k ∷ ks) changed s b = elim (Option-cases (lookup k s.active)) [
  | inl absent ↦ rw (absent, acknowledge_loop) (acknowledge_loop-Books removes ks changed s b)
  | inr (m, e) ↦
      rw (e, acknowledge_loop)
        (elim (Bool-cases (removes k)) [
          | inr stays ↦ rw stays b
          | inl gone ↦ rw gone (
              acknowledge_loop-Books removes ks true
                (record s {
                  active = erase k s.active;
                  used_bytes = s.used_bytes - m.allocated;
                  files = erase (active_filename k m.attempts) s.files;
                })
                (erased s k m (s.used_bytes - m.allocated) s.quarantined _ s.dead b e
                  (omega (arith, b.used, sum_of-ge size_of k m s.active e)) b.counted))
        ])
]

pub acknowledge-Books :
    (removes : ℕ → Bool) (dir_synced : Bool) (ks : List ℕ) (s : Store)
    → Books s
    → Books (acknowledge removes dir_synced ks s).1
unfolding acknowledge
acknowledge-Books removes dir_synced ks s b =
    let after = acknowledge_loop-Books removes ks false s b in
    elim (Result-cases (acknowledge_loop removes ks false s).0) [
      | inl (e, failed) ↦ rw (failed, acknowledge) after
      | inr (true, done) ↦ rw (done, acknowledge) (compact_index-Books _ after)
      | inr (false, done) ↦ rw (done, acknowledge) after
    ]

retried :
    (s : Store) (k : ℕ) (m : Metadata) (files : _)
    → Books s
    → lookup k s.active ≡ some m
    → Books (record s {
      active = insert k (record m { attempts = m.attempts + 1 }) s.active;
      files = files;
    })
retried s k m files b e = record {
  used = omega (
    arith,
    b.used,
    sum_of-insert_old size_of k (record m { attempts = m.attempts + 1 }) m s.active e,
  );
  counted = b.counted;
  distinct = insert-AreDistinct k (record m { attempts = m.attempts + 1 }) s.active b.distinct;
  below = λ j i found. elim (lookup-insert_inv k j _ i s.active found) [
    | inl (same, is) ↦ subst (λ t. t < s.next_id) same (b.below k m e)
    | inr (other, before) ↦ b.below j i before
  ];
  listed = λ j i found. elim (lookup-insert_inv k j _ i s.active found) [
    | inl (same, is) ↦ subst (λ t. member t s.ids ≡ true) same (b.listed k m e)
    | inr (other, before) ↦ b.listed j i before
  ];
}

mark_retry_loop-Books :
    (renames : ℕ → Bool) (ks : List ℕ) (changed : Bool) (s : Store)
    → Books s
    → Books (mark_retry_loop renames ks changed s).1
unfolding mark_retry_loop
mark_retry_loop-Books renames [] changed s b = b
mark_retry_loop-Books renames (k ∷ ks) changed s b = elim (Option-cases (lookup k s.active)) [
  | inl absent ↦ rw (absent, mark_retry_loop) (mark_retry_loop-Books renames ks changed s b)
  | inr (m, e) ↦
      rw (e, mark_retry_loop)
        (elim (Bool-cases (ltb 99999 (m.attempts + 1))) [
          | inl many ↦ rw many b
          | inr few ↦ rw few (elim (Bool-cases (renames k)) [
            | inr stays ↦ rw stays b
            | inl moves ↦ rw moves (
                mark_retry_loop-Books renames ks true
                  (record s {
                    active = insert k (record m { attempts = m.attempts + 1 }) s.active;
                    files =
                        rename_file (active_filename k m.attempts)
                          (active_filename k (m.attempts + 1)) s.files;
                  })
                  (retried s k m _ b e))
          ])
        ])
]

pub mark_retry-Books :
    (renames : ℕ → Bool) (dir_synced : Bool) (ks : List ℕ) (s : Store)
    → Books s
    → Books (mark_retry renames dir_synced ks s).1
unfolding mark_retry
mark_retry-Books renames dir_synced ks s b =
    let after = mark_retry_loop-Books renames ks false s b in
    elim (Result-cases (mark_retry_loop renames ks false s).0) [
      | inl (e, failed) ↦ rw (failed, mark_retry) after
      | inr (true, done) ↦ rw (done, mark_retry) after
      | inr (false, done) ↦ rw (done, mark_retry) after
    ]

quarantine_loop-Books :
    (renames : ℕ → Bool) (ks : List ℕ) (s : Store)
    → Books s
    → Books (quarantine_loop renames ks s).1
unfolding quarantine_loop
quarantine_loop-Books renames [] s b = b
quarantine_loop-Books renames (k ∷ ks) s b =
    let after = quarantine_locked-Books (renames k) k s b in
    elim (Result-cases (quarantine_locked (renames k) k s).0) [
      | inl (e, failed) ↦ rw (failed, quarantine_loop) after
      | inr (u, done) ↦ rw (done, quarantine_loop) (quarantine_loop-Books renames ks _ after)
    ]

pub quarantine-Books :
    (renames : ℕ → Bool) (dir_synced : Bool) (ks : List ℕ) (s : Store)
    → Books s
    → Books (quarantine renames dir_synced ks s).1
unfolding quarantine
quarantine-Books renames dir_synced ks s b =
    let after = quarantine_loop-Books renames ks s b in
    elim (Result-cases (quarantine_loop renames ks s).0) [
      | inl (e, failed) ↦ rw (failed, quarantine) after
      | inr (u, done) ↦ rw (done, quarantine) (compact_index-Books _ after)
    ]
