-- ===== src/Base/BitOrder.antt =====
-- The bits of a number, and what `&` and `|` that change nothing say of them.
use Prim.Native.Nat.{ℕ, zero, suc, ◌/◌, ◌%◌, ◌≤◌, bit_and, bit_or}
use mathlib.Core.Path.{◌≡◌, ◌∙◌}
use mathlib.Core.Logic.{◌↔◌}
use native.Mathlib.Omega.{arith}
use kb.Base.Bitwise.{bit_and-low, bit_or-low, zero-bit_and, zero-bit_or, bit_and_comm}
use kb.Base.Xor.{by_digits}

abbrev pub bit_of : ℕ → ℕ → ℕ
bit_of n zero = n % 2
bit_of n (suc j) = bit_of (n / 2) j

-- Every bit of the first number is one of the second.
abbrev pub IsBelow : ℕ → ℕ → Type 0
IsBelow x y = (j : ℕ) → bit_of x j ≤ bit_of y j

and-IsBelow : (x y : ℕ) → bit_and x y ≡ y → IsBelow y x
and-IsBelow x y e zero = omega (arith, bit_and-low x y)
and-IsBelow x y e (suc j) = and-IsBelow (x / 2) (y / 2) (omega (arith, bit_and-low x y)) j

below-bit_and : (y x : ℕ) → IsBelow y x → bit_and x y ≡ y
below-bit_and =
    by_digits (λ y. (x : ℕ) → IsBelow y x → bit_and x y ≡ y)
      (λ x h. bit_and_comm x 0 ∙ zero-bit_and x)
      (λ y step x h. omega (arith, bit_and-low x (suc y), step (x / 2) (λ j. h (suc j)), h 0))

pub bit_and_iff : (x y : ℕ) → (bit_and x y ≡ y) ↔ IsBelow y x
bit_and_iff x y = (and-IsBelow x y, below-bit_and y x)

or-IsBelow : (x y : ℕ) → bit_or x y ≡ y → IsBelow x y
or-IsBelow x y e zero = omega (arith, bit_or-low x y)
or-IsBelow x y e (suc j) = or-IsBelow (x / 2) (y / 2) (omega (arith, bit_or-low x y)) j

below-bit_or : (x y : ℕ) → IsBelow x y → bit_or x y ≡ y
below-bit_or =
    by_digits (λ x. (y : ℕ) → IsBelow x y → bit_or x y ≡ y) (λ y h. zero-bit_or y)
      (λ x step y h. omega (arith, bit_or-low (suc x) y, step (y / 2) (λ j. h (suc j)), h 0))

pub bit_or_iff : (x y : ℕ) → (bit_or x y ≡ y) ↔ IsBelow x y
bit_or_iff x y = (or-IsBelow x y, below-bit_or x y)
