-- ===== src/Bytes.antt =====
-- encoding/binary's big-endian words, as the formats of runtime/go/internal/spool use them.
use node_flow.Prelude.{
  ℕ, zero, suc, ◌+◌, ◌*◌, ◌/◌, ◌%◌, ◌^◌, ◌<◌, ◌≡◌, refl, ◌∙◌, List, [], ◌∷◌, ◌++◌, length,
  length-append, arith,
}
use native.Mathlib.Nat.{pow-suc}

abbrev pub Bytes : Type 0
Bytes = List ℕ

-- The `w` lowest bytes of `x`, the highest first: `PutUint16`, `PutUint32`, `PutUint64`.
unfoldable pub put_be : ℕ → ℕ → Bytes
put_be zero x = []
put_be (suc w) x = put_be w (x / 256) ++ (x % 256 ∷ [])

get_from : ℕ → Bytes → ℕ
get_from acc [] = acc
get_from acc (b ∷ bs) = get_from (acc * 256 + b) bs

-- `Uint16`, `Uint32` and `Uint64` of a slice of that width.
unfoldable pub get_be : Bytes → ℕ
unfolding get_from
get_be bs = get_from 0 bs

get_from-append :
    (acc : ℕ) (bs : Bytes) (b : ℕ) → get_from acc (bs ++ (b ∷ [])) ≡ get_from acc bs * 256 + b
unfolding get_from
get_from-append acc [] b = refl
get_from-append acc (c ∷ bs) b = get_from-append (acc * 256 + c) bs b

pub get_be-put_be : (w x : ℕ) → x < 256 ^ w → get_be (put_be w x) ≡ x
unfolding put_be get_be
get_be-put_be zero x h = omega arith
get_be-put_be (suc w) x h =
    get_from-append 0 (put_be w (x / 256)) (x % 256)
    ∙ omega (arith, get_be-put_be w (x / 256) (omega (arith, pow-suc 256 w)))

pub length-put_be : (w x : ℕ) → length (put_be w x) ≡ w
unfolding put_be
length-put_be zero x = refl
length-put_be (suc w) x =
    omega (arith, length-append (put_be w (x / 256)) (x % 256 ∷ []), length-put_be w (x / 256))

-- A word of two, four or eight bytes, named byte by byte, with the value that it reads as.
pub word2 :
    (x : ℕ) → x < 256 ^ 2 → (a b : ℕ) × (put_be 2 x ≡ a ∷ b ∷ []) × (get_be (a ∷ b ∷ []) ≡ x)
unfolding put_be
word2 x h = (_, _, refl, get_be-put_be 2 x h)

pub word4 :
    (x : ℕ)
    → x < 256 ^ 4
    → (a b c d : ℕ) × (put_be 4 x ≡ a ∷ b ∷ c ∷ d ∷ []) × (get_be (a ∷ b ∷ c ∷ d ∷ []) ≡ x)
unfolding put_be
word4 x h = (_, _, _, _, refl, get_be-put_be 4 x h)

pub word8 :
    (x : ℕ)
    → x < 256 ^ 8
    → (a b c d e f g h : ℕ) × (put_be 8 x ≡ a ∷ b ∷ c ∷ d ∷ e ∷ f ∷ g ∷ h ∷ [])
      × (get_be (a ∷ b ∷ c ∷ d ∷ e ∷ f ∷ g ∷ h ∷ []) ≡ x)
unfolding put_be
word8 x fits = (_, _, _, _, _, _, _, _, refl, get_be-put_be 8 x fits)
