-- ===== src/Prelude/Keys.antt =====
-- Lists of strings without repetitions, the keys of a map, and predicates on all entries of a map.
use Prim.Native.Nat.{ℕ, ◌+◌, ◌≤◌, ◌<◌}
use mathlib.Core.Path.{◌≡◌, refl, subst}
use mathlib.Core.Logic.{inl, inr}
use mathlib.Core.Bool.{true, false, ◌||◌}
use mathlib.Core.Option.{none, some, some-injective}
use mathlib.Core.List.{List, [], ◌∷◌, ◌++◌}
use native.Mathlib.Omega.{arith}
use node_flow.Prelude.Tests.{Bool-cases}
use node_flow.Prelude.Lists.{bytes_eq, length, All}
use node_flow.Prelude.Names.{
  has, find, assign, remove, AreNamed, bytes_eq_iff, bytes_eq_sound, find-remove, length-remove_old,
}

-- No member twice.
abbrev pub Distinct : List (List ℕ) → Type 0
Distinct [] = Unit
Distinct (k ∷ ks) = (has k ks ≡ false) × Distinct ks

pub has-append : (k : List ℕ) (a b : List (List ℕ)) → has k (a ++ b) ≡ (has k a || has k b)
has-append k [] b = refl
has-append k (j ∷ a) b = ground (arith, has-append k a b)

module _ {ℓ κ} {V : Type ℓ} where
  -- Each entry has the property.
  abbrev pub Entries : (List ℕ → V → Type κ) → List (List ℕ × V) → Type κ
  Entries P [] = Unit {κ}
  Entries P ((k, v) ∷ m) = P k v × Entries P m

  pub find-Entries :
      (P : List ℕ → V → Type κ) (k : List ℕ) (v : V) (m : List (List ℕ × V))
      → Entries P m
      → find k m ≡ some v
      → P k v
  unfolding find
  find-Entries P k v [] all e = absurd (ground arith)
  find-Entries P k v ((j, w) ∷ m) (p, all) e = elim (Bool-cases (bytes_eq j k)) [
    | inl same ↦
        subst (λ i. P i v) (bytes_eq_sound j k same)
          (subst (λ u. P j u) (some-injective w v (rw same at e)) p)
    | inr other ↦ find-Entries P k v m all (rw other at e)
  ]

  pub assign-Entries :
      (P : List ℕ → V → Type κ) (k : List ℕ) (v : V) (m : List (List ℕ × V))
      → P k v
      → Entries P m
      → Entries P (assign k v m)
  unfolding assign
  assign-Entries P k v [] p all = (p, tt)
  assign-Entries P k v ((j, w) ∷ m) p (q, all) = elim (Bool-cases (bytes_eq j k)) [
    | inl same ↦ rw same (p, all)
    | inr other ↦ rw other (q, assign-Entries P k v m p all)
  ]

  pub remove-Entries :
      (P : List ℕ → V → Type κ) (k : List ℕ) (m : List (List ℕ × V))
      → Entries P m
      → Entries P (remove k m)
  unfolding remove
  remove-Entries P k [] all = tt
  remove-Entries P k ((j, w) ∷ m) (q, all) = elim (Bool-cases (bytes_eq j k)) [
    | inl same ↦ rw same (remove-Entries P k m all)
    | inr other ↦ rw other (q, remove-Entries P k m all)
  ]

  pub map-Entries :
      (P Q : List ℕ → V → Type κ) (m : List (List ℕ × V))
      → ((k : List ℕ) (v : V) → P k v → Q k v)
      → Entries P m
      → Entries Q m
  map-Entries P Q [] f all = tt
  map-Entries P Q ((k, v) ∷ m) f (p, all) = (f k v p, map-Entries P Q m f all)

module _ {ℓ} {V : Type ℓ} where
  abbrev pub keys : List (List ℕ × V) → List (List ℕ)
  keys [] = []
  keys ((k, v) ∷ m) = k ∷ keys m

  pub find-keys :
      (k : List ℕ) (v : V) (m : List (List ℕ × V)) → find k m ≡ some v → has k (keys m) ≡ true
  unfolding find
  find-keys k v [] e = absurd (ground arith)
  find-keys k v ((j, w) ∷ m) e = ground (arith, find-keys k v m)

  pub find-keys-none :
      (k : List ℕ) (m : List (List ℕ × V)) → find k m ≡ none → has k (keys m) ≡ false
  unfolding find
  find-keys-none k [] e = refl
  find-keys-none k ((j, w) ∷ m) e = ground (arith, find-keys-none k m)

  pub keys-find :
      (k : List ℕ) (m : List (List ℕ × V)) → has k (keys m) ≡ true → (v : V) × (find k m ≡ some v)
  unfolding find
  keys-find k [] e = absurd (ground arith)
  keys-find k ((j, w) ∷ m) e = elim (Bool-cases (bytes_eq j k)) [
    | inl same ↦ (w, rw same refl)
    | inr other ↦ rw other (keys-find k m (rw other at e))
  ]

  pub keys-assign :
      (k j : List ℕ) (v : V) (m : List (List ℕ × V))
      → has j (keys (assign k v m)) ≡ (bytes_eq k j || has j (keys m))
  unfolding assign
  keys-assign k j v [] = refl
  keys-assign k j v ((i, w) ∷ m) =
      ground (arith, bytes_eq_iff i k, bytes_eq_iff k j, bytes_eq_iff i j, keys-assign k j v m)

  pub keys-Distinct : (m : List (List ℕ × V)) → AreNamed m → Distinct (keys m)
  keys-Distinct [] d = tt
  keys-Distinct ((k, v) ∷ m) (apart, d) = (find-keys-none k m apart, keys-Distinct m d)

  pub length-remove_key :
      (k : List ℕ) (m : List (List ℕ × V)) → has k (keys m) ≡ true → length (remove k m) < length m
  length-remove_key k m e = let v = keys-find k m e in length-remove_old k (v.0) m (v.1)

  pub keys-remove :
      (k j : List ℕ) (m : List (List ℕ × V))
      → bytes_eq k j ≡ false
      → has j (keys m) ≡ true
      → has j (keys (remove k m)) ≡ true
  keys-remove k j m apart e =
      let v = keys-find j m e in
      find-keys j (v.0) (remove k m) (rw (find-remove k j m, apart) (v.1))

  abbrev pub remove_all : List (List ℕ) → List (List ℕ × V) → List (List ℕ × V)
  remove_all [] m = m
  remove_all (k ∷ ks) m = remove_all ks (remove k m)

  pub keys-remove_All :
      (k : List ℕ) (js : List (List ℕ)) (m : List (List ℕ × V))
      → has k js ≡ false
      → All (λ j. has j (keys m) ≡ true) js
      → All (λ j. has j (keys (remove k m)) ≡ true) js
  keys-remove_All k [] m apart all = tt
  keys-remove_All k (j ∷ js) m apart (here, all) = (
    keys-remove k j m (ground (arith, bytes_eq_iff k j, bytes_eq_iff j k)) here,
    keys-remove_All k js m (ground arith) all,
  )

  -- Each removal of a key that is there counts.
  pub length-remove_all :
      (ks : List (List ℕ)) (m : List (List ℕ × V))
      → Distinct ks
      → All (λ k. has k (keys m) ≡ true) ks
      → length (remove_all ks m) + length ks ≤ length m
  length-remove_all [] m d all = omega arith
  length-remove_all (k ∷ ks) m (apart, d) (here, all) = omega (
    arith,
    length-remove_key k m here,
    length-remove_all ks (remove k m) d (keys-remove_All k ks m apart all),
  )
