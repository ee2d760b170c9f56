-- ===== src/Prelude/Maps.antt =====
-- Go's maps with unsigned keys, as association lists with one entry to a key.
use Prim.Native.Nat.{ℕ, ◌+◌}
use mathlib.Core.Path.{◌≡◌, refl}
use mathlib.Core.List.{List, [], ◌∷◌}
use mathlib.Core.Option.{Option, none, some}
use Prim.Native.Nat.{◌≤◌}
use native.Mathlib.Omega.{arith}
use mathlib.Core.Logic.{◌⊎◌, inl, inr}
use mathlib.Core.Option.{some-injective}
use mathlib.Core.Bool.{false}
use node_flow.Prelude.Tests.{◌==◌, if◌then◌else◌, Bool-cases, ==_iff}

module _ {ℓ} {V : Type ℓ} where
  -- `m[k]` with its second result.
  unfoldable pub lookup : ℕ → List (ℕ × V) → Option V
  lookup k [] = none
  lookup k ((j, v) ∷ m) = if j == k then some v else lookup k m

  -- `m[k] = v`.
  unfoldable pub insert : ℕ → V → List (ℕ × V) → List (ℕ × V)
  insert k v [] = (k, v) ∷ []
  insert k v ((j, w) ∷ m) = if j == k then (k, v) ∷ m else (j, w) ∷ insert k v m

  -- `delete(m, k)`.
  unfoldable pub erase : ℕ → List (ℕ × V) → List (ℕ × V)
  erase k [] = []
  erase k ((j, w) ∷ m) = if j == k then erase k m else (j, w) ∷ erase k m

  pub lookup-insert :
      (k j : ℕ) (v : V) (m : List (ℕ × V))
      → lookup j (insert k v m) ≡ (if k == j then some v else lookup j m)
  unfolding lookup insert
  lookup-insert k j v [] = ground arith
  lookup-insert k j v ((i, w) ∷ m) = ground (arith, lookup-insert k j v m)

  pub lookup-erase :
      (k j : ℕ) (m : List (ℕ × V)) → lookup j (erase k m) ≡ (if k == j then none else lookup j m)
  unfolding lookup erase
  lookup-erase k j [] = ground arith
  lookup-erase k j ((i, w) ∷ m) = ground (arith, lookup-erase k j m)

module _ {ℓ} {V : Type ℓ} where
  -- One entry to a key.
  abbrev pub AreDistinct : List (ℕ × V) → Type ℓ
  AreDistinct [] = Unit
  AreDistinct ((k, v) ∷ m) = (lookup k m ≡ none) × AreDistinct m

  pub insert-AreDistinct :
      (k : ℕ) (v : V) (m : List (ℕ × V)) → AreDistinct m → AreDistinct (insert k v m)
  unfolding insert
  insert-AreDistinct k v [] d = (unfold lookup in refl, tt)
  insert-AreDistinct k v ((j, w) ∷ m) (apart, d) =
      ground (arith, lookup-insert k j v m, insert-AreDistinct k v m d, apart)

  pub erase-AreDistinct : (k : ℕ) (m : List (ℕ × V)) → AreDistinct m → AreDistinct (erase k m)
  unfolding erase
  erase-AreDistinct k [] d = tt
  erase-AreDistinct k ((j, w) ∷ m) (apart, d) =
      ground (arith, lookup-erase k j m, erase-AreDistinct k m d, apart)

  erase_absent : (k : ℕ) (m : List (ℕ × V)) → lookup k m ≡ none → erase k m ≡ m
  unfolding lookup erase
  erase_absent k [] e = refl
  erase_absent k ((j, w) ∷ m) e = ground (arith, erase_absent k m)

  -- The sum of a measure over the values.
  unfoldable pub sum_of : (V → ℕ) → List (ℕ × V) → ℕ
  sum_of f [] = 0
  sum_of f ((k, v) ∷ m) = f v + sum_of f m

  pub sum_of-insert_new :
      (f : V → ℕ) (k : ℕ) (v : V) (m : List (ℕ × V))
      → lookup k m ≡ none
      → sum_of f (insert k v m) ≡ sum_of f m + f v
  unfolding sum_of insert lookup
  sum_of-insert_new f k v [] e = omega arith
  sum_of-insert_new f k v ((j, w) ∷ m) e = ground (arith, sum_of-insert_new f k v m)

  pub sum_of-insert_old :
      (f : V → ℕ) (k : ℕ) (v w : V) (m : List (ℕ × V))
      → lookup k m ≡ some w
      → sum_of f (insert k v m) + f w ≡ sum_of f m + f v
  unfolding sum_of insert lookup
  sum_of-insert_old f k v w [] e = cc
  sum_of-insert_old f k v w ((j, u) ∷ m) e = ground (arith, sum_of-insert_old f k v w m)

  pub sum_of-erase :
      (f : V → ℕ) (k : ℕ) (w : V) (m : List (ℕ × V))
      → AreDistinct m
      → lookup k m ≡ some w
      → sum_of f (erase k m) + f w ≡ sum_of f m
  unfolding sum_of erase lookup
  sum_of-erase f k w [] d e = cc
  sum_of-erase f k w ((j, u) ∷ m) (apart, d) e =
      ground (arith, erase_absent j m, sum_of-erase f k w m d)

module _ {ℓ} {V : Type ℓ} where
  pub sum_of-ge :
      (f : V → ℕ) (k : ℕ) (v : V) (m : List (ℕ × V)) → lookup k m ≡ some v → f v ≤ sum_of f m
  unfolding sum_of lookup
  sum_of-ge f k v [] e = cc
  sum_of-ge f k v ((j, w) ∷ m) e = ground (arith, sum_of-ge f k v m)

  pub sum_of_none :
      (f : V → ℕ) (m : List (ℕ × V))
      → AreDistinct m
      → ((k : ℕ) (v : V) → lookup k m ≡ some v → f v ≡ 0)
      → sum_of f m ≡ 0
  unfolding sum_of lookup
  sum_of_none f [] d h = refl
  sum_of_none f ((j, w) ∷ m) (apart, d) h =
      let head : f w ≡ 0 = h j w (ground arith) in
      omega (arith, head, sum_of_none f m d (λ k v e. h k v (keep k v e)))
    where
      keep : (k : ℕ) (v : V) → lookup k m ≡ some v → lookup k ((j, w) ∷ m) ≡ some v
      keep k v e = ground (arith, apart, e)

  -- A value found behind an insertion is the inserted one, or was there.
  pub lookup-insert_inv :
      (k j : ℕ) (v w : V) (m : List (ℕ × V))
      → lookup j (insert k v m) ≡ some w
      → ((k ≡ j) × (v ≡ w)) ⊎ (((k == j) ≡ false) × (lookup j m ≡ some w))
  lookup-insert_inv k j v w m e = elim (Bool-cases (k == j)) [
    | inl same ↦
        inl ((==_iff k j).0 same, some-injective v w (rw (lookup-insert k j v m, same) at e))
    | inr other ↦ inr (other, rw (lookup-insert k j v m, other) at e)
  ]
