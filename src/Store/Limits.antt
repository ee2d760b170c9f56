-- ===== src/Store/Limits.antt =====
-- runtime/go/internal/spool/spool.go: lemmas on the fields that operations of the legacy store keep.
use node_flow.Prelude.{
  ℕ, ◌+◌, ◌-◌, ◌≤◌, ◌≡◌, refl, ◌∙◌, Bool, true, false, List, [], ◌∷◌, ltb, lookup, erase, insert,
  arith, Option-cases, Bool-cases, Result-cases, inl, inr,
}
use node_flow.Wal.Format.{Platform}
use node_flow.Store.{
  Store, StoreError, corrupt_record, AppendIo, active_filename, rename_file, quarantine_locked,
  acknowledge_loop, acknowledge, mark_retry_loop, mark_retry, quarantine_loop, quarantine,
  append_encoded, append, new_record, read, next_error, next_entry, next_loop, compact_index,
}
use node_flow.Store.Codec.{encode_record}

-- `t` comes from `s` without an append.
pub record Keeps (s t : Store) : Type 0 where
  pub next_id : t.next_id ≡ s.next_id
  pub max_bytes : t.max_bytes ≡ s.max_bytes
  pub used_bytes : t.used_bytes ≤ s.used_bytes

Keeps-refl : (s : Store) → Keeps s s
Keeps-refl s = record { next_id = refl; max_bytes = refl; used_bytes = omega arith }

Keeps-trans : (s t u : Store) → Keeps s t → Keeps t u → Keeps s u
Keeps-trans s t u a b = record {
  next_id = b.next_id ∙ a.next_id;
  max_bytes = b.max_bytes ∙ a.max_bytes;
  used_bytes = omega (arith, a.used_bytes, b.used_bytes);
}

compact_index-Keeps : (s : Store) → Keeps s (compact_index s)
unfolding compact_index
compact_index-Keeps s = record {
  next_id = ground arith;
  max_bytes = ground arith;
  used_bytes = ground arith;
}

quarantine_locked-Keeps :
    (renames : Bool) (k : ℕ) (s : Store) → Keeps s (quarantine_locked renames k s).1
unfolding quarantine_locked
quarantine_locked-Keeps renames k s = record {
  next_id = ground arith;
  max_bytes = ground arith;
  used_bytes = ground arith;
}

acknowledge_loop-Keeps :
    (removes : ℕ → Bool) (ks : List ℕ) (changed : Bool) (s : Store)
    → Keeps s (acknowledge_loop removes ks changed s).1
unfolding acknowledge_loop
acknowledge_loop-Keeps removes [] changed s = Keeps-refl s
acknowledge_loop-Keeps removes (k ∷ ks) changed s = elim (Option-cases (lookup k s.active)) [
  | inl absent ↦ rw (absent, acknowledge_loop) (acknowledge_loop-Keeps removes ks changed s)
  | inr (m, e) ↦
      rw (e, acknowledge_loop)
        (elim (Bool-cases (removes k)) [
          | inr stays ↦ rw stays (Keeps-refl s)
          | inl gone ↦ rw gone (
              Keeps-trans s _ _
                (record { next_id = refl; max_bytes = refl; used_bytes = omega arith })
                (acknowledge_loop-Keeps removes ks true (record s {
                  active = erase k s.active;
                  used_bytes = s.used_bytes - m.allocated;
                  files = erase (active_filename k m.attempts) s.files;
                })))
        ])
]

mark_retry_loop-Keeps :
    (renames : ℕ → Bool) (ks : List ℕ) (changed : Bool) (s : Store)
    → Keeps s (mark_retry_loop renames ks changed s).1
unfolding mark_retry_loop
mark_retry_loop-Keeps renames [] changed s = Keeps-refl s
mark_retry_loop-Keeps renames (k ∷ ks) changed s = elim (Option-cases (lookup k s.active)) [
  | inl absent ↦ rw (absent, mark_retry_loop) (mark_retry_loop-Keeps renames ks changed s)
  | inr (m, e) ↦
      rw (e, mark_retry_loop)
        (elim (Bool-cases (ltb 99999 (m.attempts + 1))) [
          | inl many ↦ rw many (Keeps-refl s)
          | inr few ↦ rw few (elim (Bool-cases (renames k)) [
            | inr stays ↦ rw stays (Keeps-refl s)
            | inl moves ↦ rw moves (
                Keeps-trans s _ _
                  (record { next_id = refl; max_bytes = refl; used_bytes = omega arith })
                  (mark_retry_loop-Keeps renames ks true (record s {
                    active = insert k (record m { attempts = m.attempts + 1 }) s.active;
                    files =
                        rename_file (active_filename k m.attempts)
                          (active_filename k (m.attempts + 1)) s.files;
                  })))
          ])
        ])
]

quarantine_loop-Keeps :
    (renames : ℕ → Bool) (ks : List ℕ) (s : Store) → Keeps s (quarantine_loop renames ks s).1
unfolding quarantine_loop
quarantine_loop-Keeps renames [] s = Keeps-refl s
quarantine_loop-Keeps renames (k ∷ ks) s =
    let after = quarantine_locked-Keeps (renames k) k s in
    elim (Result-cases (quarantine_locked (renames k) k s).0) [
      | inl (e, failed) ↦ rw (failed, quarantine_loop) after
      | inr (u, done) ↦
          rw (done, quarantine_loop) (Keeps-trans s _ _ after (quarantine_loop-Keeps renames ks _))
    ]

pub acknowledge-Keeps :
    (removes : ℕ → Bool) (dir_synced : Bool) (ks : List ℕ) (s : Store)
    → Keeps s (acknowledge removes dir_synced ks s).1
unfolding acknowledge
acknowledge-Keeps removes dir_synced ks s =
    let after = acknowledge_loop-Keeps removes ks false s in
    elim (Result-cases (acknowledge_loop removes ks false s).0) [
      | inl (e, failed) ↦ rw (failed, acknowledge) after
      | inr (true, done) ↦ rw (done, acknowledge) (Keeps-trans s _ _ after (compact_index-Keeps _))
      | inr (false, done) ↦ rw (done, acknowledge) after
    ]

pub mark_retry-Keeps :
    (renames : ℕ → Bool) (dir_synced : Bool) (ks : List ℕ) (s : Store)
    → Keeps s (mark_retry renames dir_synced ks s).1
unfolding mark_retry
mark_retry-Keeps renames dir_synced ks s =
    let after = mark_retry_loop-Keeps renames ks false s in
    elim (Result-cases (mark_retry_loop renames ks false s).0) [
      | inl (e, failed) ↦ rw (failed, mark_retry) after
      | inr (true, done) ↦ rw (done, mark_retry) after
      | inr (false, done) ↦ rw (done, mark_retry) after
    ]

pub quarantine-Keeps :
    (renames : ℕ → Bool) (dir_synced : Bool) (ks : List ℕ) (s : Store)
    → Keeps s (quarantine renames dir_synced ks s).1
unfolding quarantine
quarantine-Keeps renames dir_synced ks s =
    let after = quarantine_loop-Keeps renames ks s in
    elim (Result-cases (quarantine_loop renames ks s).0) [
      | inl (e, failed) ↦ rw (failed, quarantine) after
      | inr (u, done) ↦ rw (done, quarantine) (Keeps-trans s _ _ after (compact_index-Keeps _))
    ]

module _ (p : Platform) where
  next_error-Keeps :
      (renames : Bool) (k : ℕ) (x : StoreError) (s : Store) → Keeps s (next_error p renames k x s).1
  unfolding next_error
  next_error-Keeps renames k corrupt_record s =
      let after = quarantine_locked-Keeps renames k s in
      elim (Result-cases (quarantine_locked renames k s).0) [
        | inl (e, failed) ↦ rw (failed, next_error) after
        | inr (u, done) ↦ rw (done, next_error) (Keeps-trans s _ _ after (compact_index-Keeps _))
      ]
  next_error-Keeps renames k x s = Keeps-refl s

  pub next_loop-Keeps :
      (opens renames : Bool) (ks : List ℕ) (s : Store) → Keeps s (next_loop p opens renames ks s).1
  unfolding next_loop next_entry
  next_loop-Keeps opens renames [] s = Keeps-refl s
  next_loop-Keeps opens renames (k ∷ ks) s = elim (Option-cases (lookup k s.active)) [
    | inl absent ↦ rw (absent, next_loop) (next_loop-Keeps opens renames ks s)
    | inr (m, e) ↦
        rw (e, next_loop)
          (elim (Result-cases (read p opens k m s)) [
            | inl (x, fails) ↦ rw (fails, next_entry) (next_error-Keeps renames k x s)
            | inr (r, reads) ↦ rw (reads, next_entry) (Keeps-refl s)
          ])
  ]

  -- An append takes one identifier at most, and no more room than there is.
  pub record Fits (s t : Store) : Type 0 where
    pub next_id : t.next_id ≤ s.next_id + 1
    pub max_bytes : t.max_bytes ≡ s.max_bytes
    pub used_bytes : s.used_bytes ≤ s.max_bytes → t.used_bytes ≤ s.max_bytes

  pub Keeps-Fits : (s t : Store) → Keeps s t → Fits s t
  Keeps-Fits s t k = record {
    next_id = omega (arith, k.next_id);
    max_bytes = k.max_bytes;
    used_bytes = λ h. omega (arith, k.used_bytes);
  }

  pub append-Fits :
      (io : AppendIo) (envelope : p.Envelope) (s : Store) → Fits s (append p io envelope s).1
  unfolding append append_encoded
  append-Fits io envelope s = elim (Bool-cases io.cancels) [
    | inl early ↦
        rw (early, append) (record { next_id = omega arith; max_bytes = refl; used_bytes = λ h. h })
    | inr goes ↦
        rw (goes, append)
          (elim (Option-cases (encode_record p (new_record p io envelope s))) [
            | inl broken ↦
                rw broken (record { next_id = omega arith; max_bytes = refl; used_bytes = λ h. h })
            | inr (encoded, e) ↦ rw e (record {
              next_id = ground arith;
              max_bytes = ground arith;
              used_bytes = λ h. ground arith;
            })
          ])
  ]
