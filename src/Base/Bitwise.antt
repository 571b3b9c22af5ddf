-- ===== src/Base/Bitwise.antt =====
-- `&` and `|` at every number: their lowest digit, and the laws that follow by induction on the
-- number of digits.
use Prim.Native.Nat.{
  ℕ, zero, suc, ◌+◌, ◌*◌, ◌/◌, ◌%◌, ◌≤◌, min, max, bit_and, bit_or, digits, bitwise,
  bit_and-bitwise, bit_or-bitwise,
}
use mathlib.Core.Path.{◌≡◌, refl, ap}
use native.Mathlib.Omega.{arith}

-- More fuel than the first number needs changes nothing.
module _ (z : ℕ → ℕ) (f : ℕ → ℕ → ℕ) where
  fuel_agree : (n k a b : ℕ) → a ≤ min n k → digits z f n a b ≡ digits z f k a b
  fuel_agree zero zero a b h = refl
  fuel_agree zero (suc k) zero b h = refl
  fuel_agree zero (suc k) (suc a) b h = absurd (omega arith)
  fuel_agree (suc n) zero zero b h = refl
  fuel_agree (suc n) zero (suc a) b h = absurd (omega arith)
  fuel_agree (suc n) (suc k) zero b h = refl
  fuel_agree (suc n) (suc k) (suc a) b h =
      omega (arith, fuel_agree n k (suc a / 2) (b / 2) (omega arith))

  pub low_digit :
      (a b : ℕ)
      → bitwise z f (suc a) b ≡ 2 * bitwise z f (suc a / 2) (b / 2) + f (suc a % 2) (b % 2)
  low_digit a b = omega (arith, fuel_agree a (suc a / 2) (suc a / 2) (b / 2) (omega arith))

pub bit_and-low : (a b : ℕ) → bit_and a b ≡ 2 * bit_and (a / 2) (b / 2) + min (a % 2) (b % 2)
bit_and-low zero b = omega (arith, bit_and-bitwise 0 b, bit_and-bitwise 0 (b / 2))
bit_and-low (suc a) b = omega (
  arith,
  bit_and-bitwise (suc a) b,
  bit_and-bitwise (suc a / 2) (b / 2),
  low_digit (λ x. 0) min a b,
)

bit_and-half : (a b : ℕ) → bit_and a b / 2 ≡ bit_and (a / 2) (b / 2)
bit_and-half a b = omega (arith, bit_and-low a b)

pub bit_or-low : (a b : ℕ) → bit_or a b ≡ 2 * bit_or (a / 2) (b / 2) + max (a % 2) (b % 2)
bit_or-low zero b = omega (arith, bit_or-bitwise 0 b, bit_or-bitwise 0 (b / 2))
bit_or-low (suc a) b = omega (
  arith,
  bit_or-bitwise (suc a) b,
  bit_or-bitwise (suc a / 2) (b / 2),
  low_digit (λ x. x) max a b,
)

bit_and-zero_below : (n a : ℕ) → a ≤ n → bit_and a 0 ≡ 0
bit_and-zero_below zero zero h = refl
bit_and-zero_below zero (suc a) h = absurd (omega arith)
bit_and-zero_below (suc n) zero h = refl
bit_and-zero_below (suc n) (suc a) h =
    omega (arith, bit_and-low (suc a) 0, bit_and-zero_below n (suc a / 2) (omega arith))

pub zero-bit_and : (b : ℕ) → bit_and 0 b ≡ 0
zero-bit_and b = bit_and-bitwise 0 b

pub zero-bit_or : (b : ℕ) → bit_or 0 b ≡ b
zero-bit_or b = bit_or-bitwise 0 b

comm_below : (n a b : ℕ) → a ≤ n → bit_and a b ≡ bit_and b a
comm_below zero zero b h = omega (arith, zero-bit_and b, bit_and-zero_below b b)
comm_below zero (suc a) b h = absurd (omega arith)
comm_below (suc n) zero b h = omega (arith, zero-bit_and b, bit_and-zero_below b b)
comm_below (suc n) (suc a) b h = omega (
  arith,
  bit_and-low (suc a) b,
  bit_and-low b (suc a),
  comm_below n (suc a / 2) (b / 2) (omega arith),
)

pub bit_and_comm : (a b : ℕ) → bit_and a b ≡ bit_and b a
bit_and_comm a b = comm_below a a b (omega arith)

self_below : (n a : ℕ) → a ≤ n → bit_and a a ≡ a
self_below zero zero h = refl
self_below zero (suc a) h = absurd (omega arith)
self_below (suc n) zero h = refl
self_below (suc n) (suc a) h =
    omega (arith, bit_and-low (suc a) (suc a), self_below n (suc a / 2) (omega arith))

pub bit_and_self : (a : ℕ) → bit_and a a ≡ a
bit_and_self a = self_below a a (omega arith)

-- Clearing the same bits twice.
absorb_below : (n a b : ℕ) → a ≤ n → bit_and a (bit_and a b) ≡ bit_and a b
absorb_below zero zero b h = omega (arith, zero-bit_and b, zero-bit_and (bit_and 0 b))
absorb_below zero (suc a) b h = absurd (omega arith)
absorb_below (suc n) zero b h = omega (arith, zero-bit_and b, zero-bit_and (bit_and 0 b))
absorb_below (suc n) (suc a) b h = omega (
  arith,
  bit_and-low (suc a) b,
  bit_and-low (suc a) (bit_and (suc a) b),
  ap (bit_and (suc a / 2)) (bit_and-half (suc a) b),
  absorb_below n (suc a / 2) (b / 2) (omega arith),
)

pub bit_and_absorb : (a b : ℕ) → bit_and a (bit_and a b) ≡ bit_and a b
bit_and_absorb a b = absorb_below a a b (omega arith)

or_self_below : (n a : ℕ) → a ≤ n → bit_or a a ≡ a
or_self_below zero zero h = refl
or_self_below zero (suc a) h = absurd (omega arith)
or_self_below (suc n) zero h = refl
or_self_below (suc n) (suc a) h =
    omega (arith, bit_or-low (suc a) (suc a), or_self_below n (suc a / 2) (omega arith))

pub bit_or_self : (a : ℕ) → bit_or a a ≡ a
bit_or_self a = or_self_below a a (omega arith)

and_le_below : (n a b : ℕ) → a ≤ n → bit_and a b ≤ a
and_le_below zero zero b h = omega (arith, zero-bit_and b)
and_le_below zero (suc a) b h = absurd (omega arith)
and_le_below (suc n) zero b h = omega (arith, zero-bit_and b)
and_le_below (suc n) (suc a) b h =
    omega (arith, bit_and-low (suc a) b, and_le_below n (suc a / 2) (b / 2) (omega arith))

pub bit_and-le : (a b : ℕ) → bit_and a b ≤ a
bit_and-le a b = and_le_below a a b (omega arith)

assoc_below : (n a b c : ℕ) → a ≤ n → bit_and (bit_and a b) c ≡ bit_and a (bit_and b c)
assoc_below zero zero b c h = omega (arith, ap_zero b c, zero-bit_and (bit_and b c))
  where
    ap_zero : (b c : ℕ) → bit_and (bit_and 0 b) c ≡ 0
    ap_zero b c = rw (zero-bit_and b) (zero-bit_and c)
assoc_below zero (suc a) b c h = absurd (omega arith)
assoc_below (suc n) zero b c h = rw (zero-bit_and b, zero-bit_and c, zero-bit_and (bit_and b c))
assoc_below (suc n) (suc a) b c h = omega (
  arith,
  bit_and-low (suc a) b,
  bit_and-low b c,
  bit_and-low (bit_and (suc a) b) c,
  bit_and-low (suc a) (bit_and b c),
  ap (λ (x : ℕ). bit_and x (c / 2)) (bit_and-half (suc a) b),
  ap (bit_and (suc a / 2)) (bit_and-half b c),
  assoc_below n (suc a / 2) (b / 2) (c / 2) (omega arith),
)

pub bit_and_assoc : (a b c : ℕ) → bit_and (bit_and a b) c ≡ bit_and a (bit_and b c)
bit_and_assoc a b c = assoc_below a a b c (omega arith)
