-- ===== src/Pipeline/Marks.antt =====
-- runtime/go/internal/spool/spool.go: `MarkRetry` of the legacy store, as the worker of
-- runtime/go/internal/pipeline/pipeline.go uses it.
use node_flow.Prelude.{
  ℕ, ◌+◌, ◌≤◌, ◌≡◌, refl, ap, ◌∙◌, Bool, true, false, Option, none, some, some-injective, List, [],
  ◌∷◌, map, length, ltb, ◌==◌, ==_iff, Bool-cases, Option-cases, Result-cases, inl, inr, ok, err,
  lookup, insert, lookup-insert, if◌then◌else◌, arith, sym,
}
use node_flow.Telemetry.{Envelope}
use node_flow.Wal.Format.{Record}
use node_flow.Store.{Store, Metadata, mark_records, mark_retry_loop}
use node_flow.Pipeline.Items.{IsMarked}

-- `MarkRetry`: the records behind it, unless it reports an error, and the store.
unfoldable pub store_marks :
    {E : Type 0} → (ℕ → Bool) → Bool → List (Record E) → Store → Option (List (Record E)) × Store
store_marks renames dir_synced rs s =
    let done = mark_records renames rs false s in
    (
      elim (done.0) [
        | err e ↦ none
        | ok false ↦ some (done.1)
        | ok true ↦ if dir_synced then some (done.1) else none
      ],
      done.2,
    )

-- The record `k` is active in the store, and was tried `a` times at least.
abbrev pub IsHeld : Store → ℕ → ℕ → Type 0
IsHeld s k a = (m : Metadata) × (lookup k s.active ≡ some m) × (a ≤ m.attempts)

module _ {E : Type 0} where
  -- It is the loop of `mark_retry`, on the identifiers of the records.
  mark_records-mark_retry_loop :
      (renames : ℕ → Bool) (rs : List (Record E)) (changed : Bool) (s : Store)
      → ((mark_records renames rs changed s).0, (mark_records renames rs changed s).2)
        ≡ mark_retry_loop renames (map (λ r. r.id) rs) changed s
  unfolding mark_records mark_retry_loop
  mark_records-mark_retry_loop renames [] changed s = refl
  mark_records-mark_retry_loop renames (r ∷ rs) changed s =
      elim (Option-cases (lookup r.id s.active)) [
        | inl missing ↦
            rw (mark_records, mark_retry_loop, missing)
              (mark_records-mark_retry_loop renames rs changed s)
        | inr (m, found) ↦ elim (Bool-cases (ltb 99999 (m.attempts + 1))) [
          | inl often ↦ rw (mark_records, mark_retry_loop, found, often) refl
          | inr few ↦ elim (Bool-cases (renames r.id)) [
            | inr fails ↦ rw (mark_records, mark_retry_loop, found, few, fails) refl
            | inl moved ↦
                rw (mark_records, mark_retry_loop, found, few, moved)
                  (mark_records-mark_retry_loop renames rs true _)
          ]
        ]
      ]

  length-mark_records :
      (renames : ℕ → Bool) (rs : List (Record E)) (changed : Bool) (s : Store)
      → length ((mark_records renames rs changed s).1) ≡ length rs
  unfolding mark_records
  length-mark_records renames [] changed s = refl
  length-mark_records renames (r ∷ rs) changed s = elim (Option-cases (lookup r.id s.active)) [
    | inl missing ↦
        rw (mark_records, missing) (omega (arith, length-mark_records renames rs changed s))
    | inr (m, found) ↦ elim (Bool-cases (ltb 99999 (m.attempts + 1))) [
      | inl often ↦ rw (mark_records, found, often) refl
      | inr few ↦ elim (Bool-cases (renames r.id)) [
        | inr fails ↦ rw (mark_records, found, few, fails) refl
        | inl moved ↦
            rw (mark_records, found, few, moved)
              (omega (arith, length-mark_records renames rs true _))
      ]
    ]
  ]

  insert-IsHeld :
      (k a : ℕ) (r : Record E) (m : Metadata) (s : Store)
      → lookup r.id s.active ≡ some m
      → IsHeld s k a
      → (n : Metadata) × (lookup k (insert r.id (record m { attempts = m.attempts + 1 }) s.active)
          ≡ some n)
        × (a ≤ n.attempts)
  insert-IsHeld k a r m s found (n, holds, le) = elim (Bool-cases (r.id == k)) [
    | inr other ↦ (n, rw (lookup-insert r.id k _ s.active, other) holds, le)
    | inl same ↦
        let is_k = (==_iff r.id k).0 same in
        let is_n = some-injective m n (sym found ∙ ap (λ j. lookup j s.active) is_k ∙ holds) in
        (
          record m { attempts = m.attempts + 1 },
          rw (lookup-insert r.id k (record m { attempts = m.attempts + 1 }) s.active, same) refl,
          omega (arith, le, ap (λ (x : Metadata). x.attempts) is_n),
        )
  ]

  mark_records-IsHeld :
      (k a : ℕ) (renames : ℕ → Bool) (rs : List (Record E)) (changed : Bool) (s : Store)
      → IsHeld s k a
      → IsHeld ((mark_records renames rs changed s).2) k a
  unfolding mark_records
  mark_records-IsHeld k a renames [] changed s holds = holds
  mark_records-IsHeld k a renames (r ∷ rs) changed s holds =
      elim (Option-cases (lookup r.id s.active)) [
        | inl missing ↦
            rw (mark_records, missing) (mark_records-IsHeld k a renames rs changed s holds)
        | inr (m, found) ↦ elim (Bool-cases (ltb 99999 (m.attempts + 1))) [
          | inl often ↦ rw (mark_records, found, often) holds
          | inr few ↦ elim (Bool-cases (renames r.id)) [
            | inr fails ↦ rw (mark_records, found, few, fails) holds
            | inl moved ↦
                rw (mark_records, found, few, moved)
                  (mark_records-IsHeld k a renames rs true _ (insert-IsHeld k a r m s found holds))
          ]
        ]
      ]

  store_marks-ok :
      (renames : ℕ → Bool) (dir_synced : Bool) (rs qs : List (Record E)) (s : Store)
      → (store_marks renames dir_synced rs s).0 ≡ some qs
      → ((b : Bool) × ((mark_records renames rs false s).0 ≡ ok b))
        × ((mark_records renames rs false s).1 ≡ qs)
  unfolding store_marks
  store_marks-ok renames dir_synced rs qs s e =
      elim (Result-cases ((mark_records renames rs false s).0)) [
        | inl (x, bad) ↦ absurd (cc (rw (store_marks, bad) at e))
        | inr (b, good) ↦ elim (Bool-cases b) [
          | inr unchanged ↦
              ((b, good), some-injective _ qs (rw (store_marks, good, unchanged) at e))
          | inl changed ↦ elim (Bool-cases dir_synced) [
            | inl safe ↦
                ((b, good), some-injective _ qs (rw (store_marks, good, changed, safe) at e))
            | inr unsafe ↦ absurd (cc (rw (store_marks, good, changed, unsafe) at e))
          ]
        ]
      ]

  mark_records_first :
      (renames : ℕ → Bool) (r : Record E) (rs : List (Record E)) (a : ℕ) (s : Store) (b : Bool)
      → IsHeld s r.id a
      → (mark_records renames (r ∷ rs) false s).0 ≡ ok b
      → (q : Record E) × (ps : List (Record E)) × ((mark_records renames (r ∷ rs) false s).1
          ≡ q ∷ ps)
        × (length ps ≡ length rs)
        × (a + 1 ≤ q.attempts)
        × IsHeld ((mark_records renames (r ∷ rs) false s).2) q.id (a + 1)
  unfolding mark_records
  mark_records_first renames r rs a s b (m, found, le) done =
      elim (Bool-cases (ltb 99999 (m.attempts + 1))) [
        | inl often ↦ absurd (cc (rw (mark_records, found, often) at done))
        | inr few ↦ elim (Bool-cases (renames r.id)) [
          | inr fails ↦ absurd (cc (rw (mark_records, found, few, fails) at done))
          | inl moved ↦
              let now : Metadata = record m { attempts = m.attempts + 1 } in
              rw (mark_records, found, few, moved)
                (
                  record r { attempts = m.attempts + 1 },
                  _,
                  refl,
                  length-mark_records renames rs true _,
                  omega (arith, le),
                  mark_records-IsHeld r.id (a + 1) renames rs true _ (
                    now,
                    rw (lookup-insert r.id r.id now s.active, (==_iff r.id r.id).1 refl) refl,
                    omega (arith, le),
                  ),
                )
        ]
      ]

module _ {S R : Type 0} where
  -- The first record of those that the worker holds is tried once more.
  pub store_marks-IsMarked :
      (renames : ℕ → Bool) (dir_synced : Bool) (s : Store) (r : Record (Envelope S R))
      (rs : List (Record (Envelope S R))) (a : ℕ) (qs : List (Record (Envelope S R)))
      → IsHeld s r.id a
      → (store_marks renames dir_synced (r ∷ rs) s).0 ≡ some qs
      → IsMarked (IsHeld ((store_marks renames dir_synced (r ∷ rs) s).1)) r rs a qs
  unfolding store_marks
  store_marks-IsMarked renames dir_synced s r rs a qs held e =
      let done = store_marks-ok renames dir_synced (r ∷ rs) qs s e in
      let m = mark_records_first renames r rs a s done.0.0 held done.0.1 in
      record {
        first = m.0;
        rest = m.1;
        is_first = sym done.1 ∙ m.2;
        length_rest = m.3;
        attempts_le = m.4;
        held = m.5;
      }
