-- ===== src/Topology/State/Sorted.antt =====
-- runtime/go/internal/topology/state.go: lemmas on the sorted maps of `persistedState` and the loops of
-- `restoreState`.
use node_flow.Prelude.{
  ◌≡◌, refl, sym, ap, ◌∙◌, inl, inr, false, ◌||◌, none, some, List, [], ◌∷◌, ◌++◌, append-nil,
  append_assoc, null, bytes_eq, bytes_eq_iff, has, find, assign, AreNamed, Entries, Bool-cases,
  if◌then◌else◌, Result, ok, arith,
}
use node_flow.Bytes.{Bytes}
use node_flow.Topology.State.{
  RestoreError, string_before, insert_sorted, persist_all, sort_strings, restore_all, add_all,
}

module _ {ℓ} {V : Type ℓ} where
  pub assign_new :
      (k : Bytes) (v : V) (m : List (Bytes × V))
      → find k m ≡ none
      → assign k v m ≡ m ++ ((k, v) ∷ [])
  unfolding assign find
  assign_new k v [] e = refl
  assign_new k v ((j, w) ∷ m) e = elim (Bool-cases (bytes_eq j k)) [
    | inl same ↦ absurd (ground (arith, rw (find, same) at e))
    | inr other ↦ rw (assign, other, assign_new k v m (rw (find, other) at e)) refl
  ]

  find-append_none :
      (k j : Bytes) (v : V) (m n : List (Bytes × V))
      → find j (m ++ ((k, v) ∷ n)) ≡ none
      → bytes_eq k j ≡ false
  unfolding find
  find-append_none k j v [] n e = ground arith
  find-append_none k j v ((i, w) ∷ m) n e = ground (arith, find-append_none k j v m n)

  AreNamed-find :
      (k : Bytes) (v : V) (m n : List (Bytes × V)) → AreNamed (m ++ ((k, v) ∷ n)) → find k m ≡ none
  unfolding find
  AreNamed-find k v [] n d = refl
  AreNamed-find k v ((j, w) ∷ m) n (apart, d) = ground (
    arith,
    bytes_eq_iff j k,
    bytes_eq_iff k j,
    find-append_none k j v m n apart,
    AreNamed-find k v m n d,
  )

  -- A map sorted by its keys.
  unfoldable pub insert_entry : Bytes → V → List (Bytes × V) → List (Bytes × V)
  insert_entry k v [] = (k, v) ∷ []
  insert_entry k v ((j, w) ∷ ps) =
      let later = insert_entry k v ps in
      if string_before j k then (j, w) ∷ later else (k, v) ∷ (j, w) ∷ ps

  unfoldable pub sort_entries : List (Bytes × V) → List (Bytes × V)
  sort_entries [] = []
  sort_entries ((k, v) ∷ m) = insert_entry k v (sort_entries m)

  find-insert_entry :
      (k j : Bytes) (v : V) (ps : List (Bytes × V))
      → find k ps ≡ none
      → find j (insert_entry k v ps) ≡ (if bytes_eq k j then some v else find j ps)
  unfolding insert_entry find
  find-insert_entry k j v [] e = refl
  find-insert_entry k j v ((i, w) ∷ ps) e = elim (Bool-cases (string_before i k)) [
    | inr first ↦ rw (insert_entry, first) refl
    | inl later ↦
        rw (insert_entry, later)
          (ground (
            arith,
            bytes_eq_iff i k,
            bytes_eq_iff k j,
            bytes_eq_iff i j,
            find-insert_entry k j v ps,
          ))
  ]

  pub find-sort_entries :
      (j : Bytes) (m : List (Bytes × V)) → AreNamed m → find j (sort_entries m) ≡ find j m
  unfolding sort_entries find
  find-sort_entries j [] d = refl
  find-sort_entries j ((k, v) ∷ m) (apart, d) =
      rw
        (
          sort_entries,
          find-insert_entry k j v (sort_entries m) (find-sort_entries k m d ∙ apart),
          find-sort_entries j m d,
        )
        refl

  insert_entry-AreNamed :
      (k : Bytes) (v : V) (ps : List (Bytes × V))
      → find k ps ≡ none
      → AreNamed ps
      → AreNamed (insert_entry k v ps)
  unfolding insert_entry find
  insert_entry-AreNamed k v [] e d = (refl, tt)
  insert_entry-AreNamed k v ((j, w) ∷ ps) e (apart, d) = elim (Bool-cases (string_before j k)) [
    | inr first ↦ rw (insert_entry, first) (e, (apart, d))
    | inl later ↦
        rw (insert_entry, later)
          (
            rw (find-insert_entry k j v ps (ground arith))
                (ground (arith, bytes_eq_iff j k, bytes_eq_iff k j)),
            insert_entry-AreNamed k v ps (ground arith) d,
          )
  ]

  sort_entries-AreNamed : (m : List (Bytes × V)) → AreNamed m → AreNamed (sort_entries m)
  unfolding sort_entries
  sort_entries-AreNamed [] d = tt
  sort_entries-AreNamed ((k, v) ∷ m) (apart, d) =
      insert_entry-AreNamed k v (sort_entries m) (find-sort_entries k m d ∙ apart)
        (sort_entries-AreNamed m d)

module _ {ℓ κ} {V : Type ℓ} (P : Bytes → V → Type κ) where
  insert_entry-Entries :
      (k : Bytes) (v : V) (ps : List (Bytes × V))
      → P k v
      → Entries P ps
      → Entries P (insert_entry k v ps)
  unfolding insert_entry
  insert_entry-Entries k v [] p all = (p, tt)
  insert_entry-Entries k v ((j, w) ∷ ps) p (q, all) = elim (Bool-cases (string_before j k)) [
    | inr first ↦ rw (insert_entry, first) (p, (q, all))
    | inl later ↦ rw (insert_entry, later) (q, insert_entry-Entries k v ps p all)
  ]

  pub sort_entries-Entries : (m : List (Bytes × V)) → Entries P m → Entries P (sort_entries m)
  unfolding sort_entries
  sort_entries-Entries [] all = tt
  sort_entries-Entries ((k, v) ∷ m) (p, all) =
      insert_entry-Entries k v (sort_entries m) p (sort_entries-Entries m all)

module _ {V W : Type 0} (bad : Bytes → RestoreError) (id_of : W → Bytes) (to : V → W)
    (from : W → Result RestoreError V) where
  -- The value is read back, and stands under its identifier, which is not empty.
  pub record IsBack (k : Bytes) (v : V) : Type 0 where
    pub named : id_of (to v) ≡ k
    pub filled : null k ≡ false
    pub back : from (to v) ≡ ok v

  abbrev pub values : List (Bytes × V) → List W
  values [] = []
  values ((k, v) ∷ ps) = to v ∷ values ps

  values-insert_entry :
      (k : Bytes) (v : V) (ps : List (Bytes × V))
      → id_of (to v) ≡ k
      → Entries IsBack ps
      → values (insert_entry k v ps) ≡ insert_sorted id_of (to v) (values ps)
  unfolding insert_entry insert_sorted
  values-insert_entry k v [] named all = refl
  values-insert_entry k v ((j, w) ∷ ps) named (here, all) = elim (Bool-cases (string_before j k)) [
    | inr first ↦ rw (insert_entry, insert_sorted, here.named, named, first) refl
    | inl later ↦
        rw (insert_entry, insert_sorted, here.named, named, later)
          (ap (λ ws. to w ∷ ws) (values-insert_entry k v ps named all))
  ]

  values-sort_entries :
      (m : List (Bytes × V)) → Entries IsBack m → values (sort_entries m) ≡ persist_all id_of to m
  unfolding sort_entries persist_all
  values-sort_entries [] all = refl
  values-sort_entries ((k, v) ∷ m) (here, all) =
      values-insert_entry k v (sort_entries m) here.named (sort_entries-Entries IsBack m all)
      ∙ ap (λ ws. insert_sorted id_of (to v) ws) (values-sort_entries m all)

  pub restore_all-values :
      (m ps : List (Bytes × V))
      → AreNamed (m ++ ps)
      → Entries IsBack ps
      → restore_all bad id_of from (values ps) m ≡ ok (m ++ ps)
  unfolding restore_all
  restore_all-values m [] d all = rw (append-nil m) refl
  restore_all-values m ((k, v) ∷ ps) d (here, all) =
      let missing = AreNamed-find k v m ps d in
      let moved : (m ++ ((k, v) ∷ [])) ++ ps ≡ m ++ ((k, v) ∷ ps) =
        append_assoc m ((k, v) ∷ []) ps in
      rw
        (
          restore_all,
          here.named,
          here.filled,
          missing,
          here.back,
          here.named,
          assign_new k v m missing,
        )
        (restore_all-values (m ++ ((k, v) ∷ [])) ps (rw moved d) all ∙ ap (λ n. ok n) moved)

  -- The map is read back whole, sorted by its keys.
  pub restore_all-persist_all :
      (m : List (Bytes × V))
      → AreNamed m
      → Entries IsBack m
      → restore_all bad id_of from (persist_all id_of to m) [] ≡ ok (sort_entries m)
  restore_all-persist_all m d all =
      ap (λ ws. restore_all bad id_of from ws []) (sym (values-sort_entries m all))
      ∙ restore_all-values [] (sort_entries m) (sort_entries-AreNamed m d)
          (sort_entries-Entries IsBack m all)

has-insert_sorted :
    (k s : Bytes) (ss : List Bytes)
    → has k (insert_sorted (λ t. t) s ss) ≡ (bytes_eq s k || has k ss)
unfolding insert_sorted
has-insert_sorted k s [] = refl
has-insert_sorted k s (t ∷ ss) = elim (Bool-cases (string_before t s)) [
  | inr first ↦ rw (insert_sorted, first) refl
  | inl later ↦ rw (insert_sorted, later) (ground (arith, has-insert_sorted k s ss))
]

pub has-sort_strings : (k : Bytes) (ss : List Bytes) → has k (sort_strings ss) ≡ has k ss
unfolding sort_strings
has-sort_strings k [] = refl
has-sort_strings k (s ∷ ss) =
    rw (sort_strings, has-insert_sorted k s (sort_strings ss), has-sort_strings k ss) refl

pub has-add_all :
    (k : Bytes) (ids set : List Bytes) → has k (add_all ids set) ≡ (has k ids || has k set)
has-add_all k [] set = refl
has-add_all k (id ∷ ids) set = ground (arith, has-add_all k ids (id ∷ set))
