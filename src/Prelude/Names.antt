-- ===== src/Prelude/Names.antt =====
-- Go's maps with string keys, as association lists, and sets of strings as lists.
use Prim.Native.Nat.{ℕ, ◌+◌, ◌≤◌, ◌<◌}
use mathlib.Core.Path.{◌≡◌, refl, ap₂}
use mathlib.Core.Logic.{◌⊎◌, inl, inr, ◌↔◌}
use mathlib.Core.Bool.{Bool, true, false, ◌||◌}
use mathlib.Core.Option.{Option, none, some, some-injective}
use mathlib.Core.List.{List, [], ◌∷◌}
use native.Mathlib.Omega.{arith}
use node_flow.Prelude.Tests.{if◌then◌else◌, ◌==◌, ==_iff, ==_self, Bool-cases}
use node_flow.Prelude.Lists.{bytes_eq, length}

pub bytes_eq_self : (a : List ℕ) → bytes_eq a a ≡ true
bytes_eq_self [] = refl
bytes_eq_self (x ∷ a) = rw (bytes_eq, ==_self x) (bytes_eq_self a)

pub bytes_eq_sound : (a b : List ℕ) → bytes_eq a b ≡ true → a ≡ b
bytes_eq_sound [] [] e = refl
bytes_eq_sound [] (y ∷ b) e = absurd (ground arith)
bytes_eq_sound (x ∷ a) [] e = absurd (ground arith)
bytes_eq_sound (x ∷ a) (y ∷ b) e = elim (Bool-cases (x == y)) [
  | inl same ↦
      ap₂ (λ c d. c ∷ d) ((==_iff x y).0 same) (bytes_eq_sound a b (rw (bytes_eq, same) at e))
  | inr other ↦ absurd (ground (arith, rw (bytes_eq, other) at e))
]

pub bytes_eq_iff : (a b : List ℕ) → (bytes_eq a b ≡ true) ↔ (a ≡ b)
bytes_eq_iff a b = (bytes_eq_sound a b, λ e. rw e (bytes_eq_self b))

-- `set[k]` of a `map[string]bool`.
abbrev pub has : List ℕ → List (List ℕ) → Bool
has k [] = false
has k (j ∷ js) = bytes_eq j k || has k js

-- `delete(set, k)`.
abbrev pub without : List ℕ → List (List ℕ) → List (List ℕ)
without k [] = []
without k (j ∷ js) = let rest = without k js in if bytes_eq j k then rest else j ∷ rest

module _ {ℓ} {V : Type ℓ} where
  unfoldable pub find : List ℕ → List (List ℕ × V) → Option V
  find k [] = none
  find k ((j, v) ∷ m) = if bytes_eq j k then some v else find k m

  unfoldable pub assign : List ℕ → V → List (List ℕ × V) → List (List ℕ × V)
  assign k v [] = (k, v) ∷ []
  assign k v ((j, w) ∷ m) = if bytes_eq j k then (k, v) ∷ m else (j, w) ∷ assign k v m

  unfoldable pub remove : List ℕ → List (List ℕ × V) → List (List ℕ × V)
  remove k [] = []
  remove k ((j, w) ∷ m) = if bytes_eq j k then remove k m else (j, w) ∷ remove k m

  pub find-assign :
      (k j : List ℕ) (v : V) (m : List (List ℕ × V))
      → find j (assign k v m) ≡ (if bytes_eq k j then some v else find j m)
  unfolding find assign
  find-assign k j v [] = refl
  find-assign k j v ((i, w) ∷ m) =
      ground (arith, bytes_eq_iff k j, bytes_eq_iff i k, bytes_eq_iff i j, find-assign k j v m)

  pub find-remove :
      (k j : List ℕ) (m : List (List ℕ × V))
      → find j (remove k m) ≡ (if bytes_eq k j then none else find j m)
  unfolding find remove
  find-remove k j [] = ground arith
  find-remove k j ((i, w) ∷ m) =
      ground (arith, bytes_eq_iff k j, bytes_eq_iff i k, bytes_eq_iff i j, find-remove k j m)

  pub length-assign_old :
      (k : List ℕ) (v w : V) (m : List (List ℕ × V))
      → find k m ≡ some w
      → length (assign k v m) ≡ length m
  unfolding find assign
  length-assign_old k v w [] e = absurd (ground arith)
  length-assign_old k v w ((j, u) ∷ m) e = ground (arith, length-assign_old k v w m)

  pub length-assign :
      (k : List ℕ) (v : V) (m : List (List ℕ × V)) → length (assign k v m) ≤ length m + 1
  unfolding assign
  length-assign k v [] = omega arith
  length-assign k v ((j, u) ∷ m) = ground (arith, length-assign k v m)

  pub length-remove : (k : List ℕ) (m : List (List ℕ × V)) → length (remove k m) ≤ length m
  unfolding remove
  length-remove k [] = omega arith
  length-remove k ((j, u) ∷ m) = ground (arith, length-remove k m)

  -- What is there is less behind a removal.
  pub length-remove_old :
      (k : List ℕ) (w : V) (m : List (List ℕ × V))
      → find k m ≡ some w
      → length (remove k m) < length m
  unfolding find remove
  length-remove_old k w [] e = absurd (ground arith)
  length-remove_old k w ((j, u) ∷ m) e = ground (arith, length-remove k m, length-remove_old k w m)

  -- One entry to a key.
  abbrev pub AreNamed : List (List ℕ × V) → Type ℓ
  AreNamed [] = Unit
  AreNamed ((k, v) ∷ m) = (find k m ≡ none) × AreNamed m

  pub assign-AreNamed :
      (k : List ℕ) (v : V) (m : List (List ℕ × V)) → AreNamed m → AreNamed (assign k v m)
  unfolding assign find
  assign-AreNamed k v [] d = (refl, tt)
  assign-AreNamed k v ((j, w) ∷ m) (apart, d) = ground (
    arith,
    bytes_eq_iff j k,
    bytes_eq_iff k j,
    find-assign k j v m,
    assign-AreNamed k v m d,
    apart,
  )

  pub remove-AreNamed : (k : List ℕ) (m : List (List ℕ × V)) → AreNamed m → AreNamed (remove k m)
  unfolding remove find
  remove-AreNamed k [] d = tt
  remove-AreNamed k ((j, w) ∷ m) (apart, d) =
      ground
        (arith, bytes_eq_iff j k, bytes_eq_iff k j, find-remove k j m, remove-AreNamed k m d, apart)

  -- A value found behind an assignment is the assigned one, or was there.
  pub find-assign_inv :
      (k j : List ℕ) (v w : V) (m : List (List ℕ × V))
      → find j (assign k v m) ≡ some w
      → ((k ≡ j) × (v ≡ w)) ⊎ ((bytes_eq k j ≡ false) × (find j m ≡ some w))
  find-assign_inv k j v w m e = elim (Bool-cases (bytes_eq k j)) [
    | inl same ↦
        inl (bytes_eq_sound k j same, some-injective v w (rw (find-assign k j v m, same) at e))
    | inr other ↦ inr (other, rw (find-assign k j v m, other) at e)
  ]
