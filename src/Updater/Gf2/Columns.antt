-- ===== src/Updater/Gf2/Columns.antt =====
-- The combination of the columns that a number selects, and the length of a number.
use kb.Base.{
  ℕ, zero, suc, ◌+◌, ◌-◌, ◌*◌, ◌/◌, ◌%◌, ◌^◌, ◌≤◌, ◌<◌, bit_xor, ◌≡◌, refl, sym, ap, ap₂, subst,
  ◌∙◌, List, [], ◌∷◌, ◌++◌, arith, ◌==◌, if◌then◌else◌, length, bit_xor-low, bit_xor-half,
  zero-bit_xor, bit_xor-zero, bit_xor_self, bit_xor_swap, bit_xor-lt,
}
use native.Mathlib.Nat.{pow-suc}
use kb.Updater.Gf2.{bit_length_within, bit_length}

-- `column` if the lowest digit of a number selects it.
abbrev pub selected : ℕ → ℕ → ℕ
selected digit column = if digit == 1 then column % 2 ^ 32 else 0

-- The columns at the digits of a number, added without carries.
abbrev pub combine : List ℕ → ℕ → ℕ
combine [] c = 0
combine (column ∷ columns) c = bit_xor (selected (c % 2) column) (combine columns (c / 2))

selected-bit_xor :
    (a b column : ℕ)
    → a < 2
    → b < 2
    → selected ((a + b) % 2) column ≡ bit_xor (selected a column) (selected b column)
selected-bit_xor zero zero column below below' = refl
selected-bit_xor zero (suc zero) column below below' = sym (zero-bit_xor (column % 2 ^ 32))
selected-bit_xor (suc zero) zero column below below' = sym (bit_xor-zero (column % 2 ^ 32))
selected-bit_xor (suc zero) (suc zero) column below below' = sym (bit_xor_self (column % 2 ^ 32))
selected-bit_xor zero (suc (suc b)) column below below' = absurd (omega arith)
selected-bit_xor (suc zero) (suc (suc b)) column below below' = absurd (omega arith)
selected-bit_xor (suc (suc a)) b column below below' = absurd (omega arith)

pub combine-bit_xor :
    (columns : List ℕ) (a b : ℕ)
    → combine columns (bit_xor a b) ≡ bit_xor (combine columns a) (combine columns b)
combine-bit_xor [] a b = refl
combine-bit_xor (column ∷ columns) a b =
    ap₂ bit_xor
      (ap (λ (d : ℕ). selected d column) digit
        ∙ selected-bit_xor (a % 2) (b % 2) column (omega arith) (omega arith))
      (ap (combine columns) (bit_xor-half a b) ∙ combine-bit_xor columns (a / 2) (b / 2))
    ∙ bit_xor_swap (selected (a % 2) column) (selected (b % 2) column) (combine columns (a / 2))
        (combine columns (b / 2))
  where
    digit : bit_xor a b % 2 ≡ (a % 2 + b % 2) % 2
    digit = omega (arith, bit_xor-low a b)

pub combine-zero : (columns : List ℕ) → combine columns 0 ≡ 0
combine-zero [] = refl
combine-zero (column ∷ columns) = rw (zero-bit_xor, combine-zero columns)

-- One digit selects one column.
pub combine_single :
    (before after : List ℕ) (column : ℕ)
    → combine (before ++ (column ∷ after)) (2 ^ length before) ≡ column % 2 ^ 32
combine_single [] after column =
    ap (bit_xor (column % 2 ^ 32)) (combine-zero after) ∙ bit_xor-zero (column % 2 ^ 32)
combine_single (c ∷ before) after column =
    ap₂ bit_xor (ap (λ (d : ℕ). selected d c) digit)
      (ap (combine (before ++ (column ∷ after))) half ∙ combine_single before after column)
    ∙ zero-bit_xor (column % 2 ^ 32)
  where
    digit : 2 ^ suc (length before) % 2 ≡ 0
    digit = omega (arith, pow-suc 2 (length before))

    half : 2 ^ suc (length before) / 2 ≡ 2 ^ length before
    half = omega (arith, pow-suc 2 (length before))

pub combine-lt : (columns : List ℕ) (c : ℕ) → combine columns c < 2 ^ 32
combine-lt [] c = omega arith
combine-lt (column ∷ columns) c =
    bit_xor-lt 32 (selected (c % 2) column) (combine columns (c / 2)) (selected-lt (c % 2))
      (combine-lt columns (c / 2))
  where
    selected-lt : (digit : ℕ) → selected digit column < 2 ^ 32
    selected-lt digit = ground arith

lt_length_within : (fuel n : ℕ) → n ≤ fuel → n < 2 ^ bit_length_within fuel n
lt_length_within zero zero h = omega arith
lt_length_within zero (suc n) h = absurd (omega arith)
lt_length_within (suc fuel) zero h = omega arith
lt_length_within (suc fuel) (suc n) h = omega (
  arith,
  pow-suc 2 (bit_length_within fuel (suc n / 2)),
  lt_length_within fuel (suc n / 2) (omega arith),
)

length_within-zero : (fuel : ℕ) → bit_length_within fuel 0 ≡ 0
length_within-zero zero = refl
length_within-zero (suc fuel) = refl

from_half :
    (fuel n m : ℕ)
    → m ≡ suc n / 2
    → (1 ≤ m → 2 ^ bit_length_within fuel m ≤ 2 * m)
    → 2 ^ suc (bit_length_within fuel m) ≤ 2 * suc n
from_half fuel n zero e h = rw (length_within-zero fuel) (omega arith)
from_half fuel n (suc m) e h =
    omega (arith, pow-suc 2 (bit_length_within fuel (suc m)), h (omega arith))

le_length_within : (fuel n : ℕ) → 1 ≤ n → n ≤ fuel → 2 ^ bit_length_within fuel n ≤ 2 * n
le_length_within fuel zero positive h = absurd (omega arith)
le_length_within zero (suc n) positive h = absurd (omega arith)
le_length_within (suc fuel) (suc n) positive h =
    from_half fuel n (suc n / 2) refl (λ some. le_length_within fuel (suc n / 2) some (omega arith))

under_length :
    (l v : ℕ)
    → 2 ^ suc l ≤ 2 * v
    → v < 2 ^ suc l
    → (2 ^ (suc l - 1) ≤ v) × (v < 2 ^ suc (suc l - 1))
under_length l v low high =
    subst (λ p. (2 ^ p ≤ v) × (v < 2 ^ suc p)) same (omega (arith, pow-suc 2 l), high)
  where
    same : l ≡ suc l - 1
    same = omega arith

-- The highest digit of a number is at its pivot.
pub pivot_bounds :
    (v : ℕ) → (2 ^ (bit_length (suc v) - 1) ≤ suc v) × (suc v < 2 ^ suc (bit_length (suc v) - 1))
pivot_bounds v =
    under_length (bit_length_within v (suc v / 2)) (suc v)
      (le_length_within (suc v) (suc v) (omega arith) (omega arith))
      (lt_length_within (suc v) (suc v) (omega arith))

length_within-le : (fuel k n : ℕ) → n < 2 ^ k → bit_length_within fuel n ≤ k
length_within-le zero k n below = omega arith
length_within-le (suc fuel) k zero below = omega arith
length_within-le (suc fuel) zero (suc n) below = absurd (omega arith)
length_within-le (suc fuel) (suc k) (suc n) below =
    omega (arith, length_within-le fuel k (suc n / 2) (omega (arith, pow-suc 2 k)))

-- A number below a power of two has its pivot below the exponent.
pub pivot-lt : (n v : ℕ) → suc v < 2 ^ suc n → bit_length (suc v) - 1 ≤ n
pivot-lt n v below = omega (arith, length_within-le (suc v) (suc n) (suc v) below)
