-- ===== src/Base/Xor.antt =====
-- `^` at every number: its lowest digit, its laws, and the highest digit of two numbers of one
-- length.
use Prim.Native.Nat.{
  ℕ, zero, suc, ◌+◌, ◌*◌, ◌/◌, ◌%◌, ◌^◌, ◌≤◌, ◌<◌, differ, bit_xor, bit_xor-bitwise,
}
use mathlib.Core.Path.{◌≡◌, refl, sym, ap, ap₂, subst, ◌∙◌}
use mathlib.Core.Logic.{◌⊎◌, inl, inr}
use native.Mathlib.Nat.{
  pow-suc, pow-succ', div-add-mod, mul-add-mod_self_left, mod-eq_of_lt, mul_assoc, mod-lt,
  one-le-pow, div-div-eq-div-mul,
}
use native.Mathlib.Omega.{arith}
use kb.Base.Tests.{ltb, ltb→lt, Bool-cases}
use kb.Base.Bitwise.{low_digit}

-- Two digits differ as their sum is odd.
differ_lem : (x y : ℕ) → x < 2 → y < 2 → differ x y ≡ (x + y) % 2
differ_lem zero zero below below' = refl
differ_lem zero (suc zero) below below' = refl
differ_lem (suc zero) zero below below' = refl
differ_lem (suc zero) (suc zero) below below' = refl
differ_lem zero (suc (suc y)) below below' = absurd (omega arith)
differ_lem (suc zero) (suc (suc y)) below below' = absurd (omega arith)
differ_lem (suc (suc x)) y below below' = absurd (omega arith)

pub bit_xor-low : (a b : ℕ) → bit_xor a b ≡ 2 * bit_xor (a / 2) (b / 2) + (a % 2 + b % 2) % 2
bit_xor-low zero b = omega (arith, bit_xor-bitwise 0 b, bit_xor-bitwise 0 (b / 2))
bit_xor-low (suc a) b = omega (
  arith,
  bit_xor-bitwise (suc a) b,
  bit_xor-bitwise (suc a / 2) (b / 2),
  low_digit (λ x. x) differ a b,
  differ_lem (suc a % 2) (b % 2) (omega arith) (omega arith),
)

pub bit_xor-half : (a b : ℕ) → bit_xor a b / 2 ≡ bit_xor (a / 2) (b / 2)
bit_xor-half a b = omega (arith, bit_xor-low a b)

pub zero-bit_xor : (b : ℕ) → bit_xor 0 b ≡ b
zero-bit_xor b = bit_xor-bitwise 0 b

-- A fact of every number follows when each number has it once its half has.
pub by_digits {ℓ} : (P : ℕ → Type ℓ) → P 0 → ((a : ℕ) → P (suc a / 2) → P (suc a)) → (a : ℕ) → P a
by_digits P base step a = below a a (omega arith)
  where
    below : (n a : ℕ) → a ≤ n → P a
    below n zero h = base
    below zero (suc a) h = absurd (omega arith)
    below (suc n) (suc a) h = step a (below n (suc a / 2) (omega arith))

pub bit_xor_comm : (a b : ℕ) → bit_xor a b ≡ bit_xor b a
bit_xor_comm =
    by_digits (λ a. (b : ℕ) → bit_xor a b ≡ bit_xor b a)
      (λ b. zero-bit_xor b ∙ sym (bit_xor-zero b))
      (λ a step b. omega (arith, bit_xor-low (suc a) b, bit_xor-low b (suc a), step (b / 2)))
  where
    bit_xor-zero : (a : ℕ) → bit_xor a 0 ≡ a
    bit_xor-zero =
        by_digits (λ a. bit_xor a 0 ≡ a) refl (λ a step. omega (arith, bit_xor-low (suc a) 0, step))

pub bit_xor-zero : (a : ℕ) → bit_xor a 0 ≡ a
bit_xor-zero a = bit_xor_comm a 0 ∙ zero-bit_xor a

pub bit_xor_self : (a : ℕ) → bit_xor a a ≡ 0
bit_xor_self =
    by_digits (λ a. bit_xor a a ≡ 0) refl
      (λ a step. omega (arith, bit_xor-low (suc a) (suc a), step))

pub bit_xor_assoc : (a b c : ℕ) → bit_xor (bit_xor a b) c ≡ bit_xor a (bit_xor b c)
bit_xor_assoc =
    by_digits (λ a. (b c : ℕ) → bit_xor (bit_xor a b) c ≡ bit_xor a (bit_xor b c))
      (λ b c. ap (λ (x : ℕ). bit_xor x c) (zero-bit_xor b) ∙ sym (zero-bit_xor (bit_xor b c)))
      (λ a step b c. omega (
        arith,
        bit_xor-low (suc a) b,
        bit_xor-low b c,
        bit_xor-low (bit_xor (suc a) b) c,
        bit_xor-low (suc a) (bit_xor b c),
        ap (λ (x : ℕ). bit_xor x (c / 2)) (bit_xor-half (suc a) b),
        ap (bit_xor (suc a / 2)) (bit_xor-half b c),
        step (b / 2) (c / 2),
      ))

-- Taking the same number out again.
pub bit_xor_cancel : (a b : ℕ) → bit_xor a (bit_xor a b) ≡ b
bit_xor_cancel a b =
    sym (bit_xor_assoc a a b) ∙ ap (λ (x : ℕ). bit_xor x b) (bit_xor_self a) ∙ zero-bit_xor b

pub bit_xor-eq-zero : (a b : ℕ) → bit_xor a b ≡ 0 → a ≡ b
bit_xor-eq-zero a b e = sym (bit_xor-zero a) ∙ ap (bit_xor a) (sym e) ∙ bit_xor_cancel a b

-- The middle two of four change places.
pub bit_xor_swap :
    (a b c d : ℕ) → bit_xor (bit_xor a b) (bit_xor c d) ≡ bit_xor (bit_xor a c) (bit_xor b d)
bit_xor_swap a b c d =
    bit_xor_assoc a b (bit_xor c d)
    ∙ ap (bit_xor a) (
        sym (bit_xor_assoc b c d)
        ∙ ap (λ (x : ℕ). bit_xor x d) (bit_xor_comm b c)
        ∙ bit_xor_assoc c b d)
    ∙ sym (bit_xor_assoc a c (bit_xor b d))

pub bit_xor-lt : (n a b : ℕ) → a < 2 ^ n → b < 2 ^ n → bit_xor a b < 2 ^ n
bit_xor-lt zero a b below below' = ground (arith, bit_xor_zeros a b)
  where
    bit_xor_zeros : (a b : ℕ) → a < 1 → b < 1 → bit_xor a b < 1
    bit_xor_zeros zero zero below below' = omega arith
    bit_xor_zeros (suc a) b below below' = absurd (omega arith)
    bit_xor_zeros zero (suc b) below below' = absurd (omega arith)
bit_xor-lt (suc n) a b below below' = omega (
  arith,
  pow-suc 2 n,
  bit_xor-low a b,
  bit_xor-lt n (a / 2) (b / 2) (omega (arith, pow-suc 2 n)) (omega (arith, pow-suc 2 n)),
)

-- Two numbers of one length lose their highest digit.
pub bit_xor_same_length :
    (n a b : ℕ) → 2 ^ n ≤ a → a < 2 ^ suc n → 2 ^ n ≤ b → b < 2 ^ suc n → bit_xor a b < 2 ^ n
bit_xor_same_length zero a b low high low' high' = ground (arith, bit_xor_ones a b)
  where
    bit_xor_ones : (a b : ℕ) → 1 ≤ a → a < 2 → 1 ≤ b → b < 2 → bit_xor a b < 1
    bit_xor_ones (suc zero) (suc zero) low high low' high' = omega arith
    bit_xor_ones zero b low high low' high' = absurd (omega arith)
    bit_xor_ones (suc (suc a)) b low high low' high' = absurd (omega arith)
    bit_xor_ones (suc zero) zero low high low' high' = absurd (omega arith)
    bit_xor_ones (suc zero) (suc (suc b)) low high low' high' = absurd (omega arith)
bit_xor_same_length (suc n) a b low high low' high' = omega (
  arith,
  pow-suc 2 n,
  pow-suc 2 (suc n),
  bit_xor-low a b,
  bit_xor_same_length n (a / 2) (b / 2) (omega (arith, pow-suc 2 n))
      (omega (arith, pow-suc 2 n, pow-suc 2 (suc n))) (omega (arith, pow-suc 2 n))
      (omega (arith, pow-suc 2 n, pow-suc 2 (suc n))),
)

-- The lowest digit and the rest of a remainder by an even number.
mod_double : (m x : ℕ) → 1 ≤ m → x % (2 * m) ≡ 2 * (x / 2 % m) + x % 2
mod_double m x positive =
    ap (λ (y : ℕ). y % (2 * m)) parts
    ∙ mul-add-mod_self_left (2 * m) (x / 2 / m) (2 * (x / 2 % m) + x % 2)
    ∙ mod-eq_of_lt (omega (arith, mod-lt (x / 2) positive))
  where
    parts : x ≡ 2 * m * (x / 2 / m) + (2 * (x / 2 % m) + x % 2)
    parts = omega (arith, div-add-mod (x / 2) m, mul_assoc 2 m (x / 2 / m))

mod_double-bit_xor :
    (m : ℕ)
    → 1 ≤ m
    → ((a b : ℕ) → bit_xor a b % m ≡ bit_xor (a % m) (b % m))
    → (a b : ℕ) → bit_xor a b % (2 * m) ≡ bit_xor (a % (2 * m)) (b % (2 * m))
mod_double-bit_xor m positive step a b = omega (
  arith,
  mod_double m (bit_xor a b) positive,
  mod_double m a positive,
  mod_double m b positive,
  ap (λ (x : ℕ). x % m) (bit_xor-half a b),
  step (a / 2) (b / 2),
  bit_xor-low a b,
  bit_xor-low (a % (2 * m)) (b % (2 * m)),
  ap₂ bit_xor half_a half_b,
)
  where
    half_a : a % (2 * m) / 2 ≡ a / 2 % m
    half_a = omega (arith, mod_double m a positive)

    half_b : b % (2 * m) / 2 ≡ b / 2 % m
    half_b = omega (arith, mod_double m b positive)

-- The low digits of `^` are the `^` of the low digits.
pub bit_xor-mod : (n a b : ℕ) → bit_xor a b % 2 ^ n ≡ bit_xor (a % 2 ^ n) (b % 2 ^ n)
bit_xor-mod zero a b = omega (arith, ap₂ bit_xor zero_a zero_b, zero-bit_xor 0)
  where
    zero_a : a % 1 ≡ 0
    zero_a = omega arith

    zero_b : b % 1 ≡ 0
    zero_b = omega arith
bit_xor-mod (suc n) a b =
    subst (λ m. bit_xor a b % m ≡ bit_xor (a % m) (b % m)) double
      (mod_double-bit_xor (2 ^ n) (one-le-pow n 2 (omega arith)) (bit_xor-mod n) a b)
  where
    double : 2 * 2 ^ n ≡ 2 ^ suc n
    double = omega (arith, pow-suc 2 n)

-- And the high digits, a byte at a time.
square_shift :
    (m : ℕ)
    → ((a b : ℕ) → bit_xor a b / m ≡ bit_xor (a / m) (b / m))
    → (a b : ℕ) → bit_xor a b / (m * m) ≡ bit_xor (a / (m * m)) (b / (m * m))
square_shift m step a b =
    sym (div-div-eq-div-mul (bit_xor a b) m m)
    ∙ ap (λ (x : ℕ). x / m) (step a b)
    ∙ step (a / m) (b / m)
    ∙ ap₂ bit_xor (div-div-eq-div-mul a m m) (div-div-eq-div-mul b m m)

pub bit_xor-shift : (a b : ℕ) → bit_xor a b / 256 ≡ bit_xor (a / 256) (b / 256)
bit_xor-shift = square_shift 16 (square_shift 4 (square_shift 2 bit_xor-half))

bit_xor_back : (a b : ℕ) → bit_xor (bit_xor a b) b ≡ a
bit_xor_back a b = bit_xor_assoc a b b ∙ ap (bit_xor a) (bit_xor_self b) ∙ bit_xor-zero a

pub bit_xor_injective : (a b c : ℕ) → bit_xor a c ≡ bit_xor b c → a ≡ b
bit_xor_injective a b c e =
    sym (bit_xor_back a c) ∙ ap (λ (x : ℕ). bit_xor x c) e ∙ bit_xor_back b c

-- A shorter number leaves the highest digit.
pub bit_xor_longer :
    (n a b : ℕ)
    → 2 ^ n ≤ a
    → a < 2 ^ suc n
    → b < 2 ^ n
    → (2 ^ n ≤ bit_xor a b) × (bit_xor a b < 2 ^ suc n)
bit_xor_longer n a b low high short = (
  elim (lt-or-le (bit_xor a b) (2 ^ n)) [
    | inl small ↦
        absurd (omega (arith, low, bit_xor_back a b, bit_xor-lt n (bit_xor a b) b small short))
    | inr large ↦ large
  ],
  bit_xor-lt (suc n) a b high (omega (arith, pow-suc 2 n)),
)
  where
    lt-or-le : (x y : ℕ) → (x < y) ⊎ (y ≤ x)
    lt-or-le x y = elim (Bool-cases (ltb x y)) [
      | inl h ↦ inl (ltb→lt x y h)
      | inr h ↦ inr (ground arith)
    ]

double-bit_xor : (a b : ℕ) → bit_xor (2 * a) (2 * b) ≡ 2 * bit_xor a b
double-bit_xor a b = omega (arith, bit_xor-low (2 * a) (2 * b), ap₂ bit_xor (half a) (half b))
  where
    half : (x : ℕ) → 2 * x / 2 ≡ x
    half x = omega arith

pub scale-bit_xor : (n a b : ℕ) → bit_xor (2 ^ n * a) (2 ^ n * b) ≡ 2 ^ n * bit_xor a b
scale-bit_xor zero a b = ap₂ bit_xor (one_mul a) (one_mul b) ∙ sym (one_mul (bit_xor a b))
  where
    one_mul : (x : ℕ) → 1 * x ≡ x
    one_mul x = omega arith
scale-bit_xor (suc n) a b =
    ap₂ bit_xor (out a) (out b)
    ∙ double-bit_xor (2 ^ n * a) (2 ^ n * b)
    ∙ ap (λ (x : ℕ). 2 * x) (scale-bit_xor n a b)
    ∙ sym (out (bit_xor a b))
  where
    out : (x : ℕ) → 2 ^ suc n * x ≡ 2 * (2 ^ n * x)
    out x = ap (λ (m : ℕ). m * x) (pow-succ' 2 n) ∙ mul_assoc 2 (2 ^ n) x

-- A number is its lowest digit beside twice its half.
pub digit_split : (c : ℕ) → bit_xor (c % 2) (2 * (c / 2)) ≡ c
digit_split c =
    omega
      (arith, bit_xor-low (c % 2) (2 * (c / 2)), ap₂ bit_xor none_left half, zero-bit_xor (c / 2))
  where
    none_left : c % 2 / 2 ≡ 0
    none_left = omega arith

    half : 2 * (c / 2) / 2 ≡ c / 2
    half = omega arith
