-- ===== src/Base/Crc.antt =====
-- `zlib.crc32`: its loop over bits adds up without carries, and no step of it loses anything.
use Prim.Native.Nat.{ℕ, zero, suc, ◌+◌, ◌*◌, ◌/◌, ◌%◌, ◌^◌, ◌<◌, bit_xor}
use mathlib.Core.Path.{◌≡◌, refl, sym, ap, ap₂, ◌∙◌}
use mathlib.Core.List.{[], ◌∷◌, ◌++◌}
use native.Mathlib.Nat.{pow-suc, pow-succ', mul_assoc, mod-eq_of_lt}
use native.Mathlib.Omega.{arith}
use kb.Base.Tests.{◌==◌, if◌then◌else◌}
use kb.Base.Lists.{length}
use kb.Base.ByteStrings.{Bytes, le}
use kb.Base.Xor.{
  bit_xor-low, bit_xor-half, zero-bit_xor, bit_xor-zero, bit_xor_self, bit_xor_swap, bit_xor-lt,
  bit_xor-mod, bit_xor-shift, bit_xor_assoc, bit_xor-eq-zero,
}

-- One bit of the reflected CRC-32 with the polynomial 0xEDB88320.
pub crc_bit : ℕ → ℕ
crc_bit c = if c % 2 == 1 then bit_xor (c / 2) 0xedb88320 else c / 2

crc_byte : ℕ → ℕ → ℕ
unfolding crc_bit
crc_byte c b =
    crc_bit (crc_bit (crc_bit (crc_bit (crc_bit (crc_bit (crc_bit (crc_bit (bit_xor c b))))))))

crc_loop : ℕ → Bytes → ℕ
unfolding crc_byte
crc_loop c [] = c
crc_loop c (b ∷ bs) = crc_loop (crc_byte c b) bs

-- `zlib.crc32(data) & 0xFFFFFFFF`
unfoldable pub crc32 : Bytes → ℕ
unfolding crc_loop
crc32 bs = bit_xor (crc_loop 0xffffffff bs) 0xffffffff % 2 ^ 32

pub crc32-lt : (bs : Bytes) → crc32 bs < 2 ^ 32
unfolding crc32
crc32-lt bs = omega arith

-- The check value of CRC-32, of the text "123456789".
crc32-check : crc32 (49 ∷ 50 ∷ 51 ∷ 52 ∷ 53 ∷ 54 ∷ 55 ∷ 56 ∷ 57 ∷ []) ≡ 0xcbf43926
unfolding crc32
crc32-check = refl

-- What a step adds for the digit that it drops.
abbrev fed : ℕ → ℕ
fed digit = if digit == 1 then 0xedb88320 else 0

crc_bit-fed : (c : ℕ) → crc_bit c ≡ bit_xor (c / 2) (fed (c % 2))
unfolding crc_bit
crc_bit-fed c = ground (arith, bit_xor-zero (c / 2))

fed-bit_xor : (a b : ℕ) → a < 2 → b < 2 → fed ((a + b) % 2) ≡ bit_xor (fed a) (fed b)
fed-bit_xor zero zero below below' = refl
fed-bit_xor zero (suc zero) below below' = refl
fed-bit_xor (suc zero) zero below below' = refl
fed-bit_xor (suc zero) (suc zero) below below' = refl
fed-bit_xor zero (suc (suc b)) below below' = absurd (omega arith)
fed-bit_xor (suc zero) (suc (suc b)) below below' = absurd (omega arith)
fed-bit_xor (suc (suc a)) b below below' = absurd (omega arith)

crc_bit-bit_xor : (a b : ℕ) → crc_bit (bit_xor a b) ≡ bit_xor (crc_bit a) (crc_bit b)
crc_bit-bit_xor a b =
    crc_bit-fed (bit_xor a b)
    ∙ ap₂ bit_xor (bit_xor-half a b)
        (ap fed digit ∙ fed-bit_xor (a % 2) (b % 2) (omega arith) (omega arith))
    ∙ bit_xor_swap (a / 2) (b / 2) (fed (a % 2)) (fed (b % 2))
    ∙ ap₂ bit_xor (sym (crc_bit-fed a)) (sym (crc_bit-fed b))
  where
    digit : bit_xor a b % 2 ≡ (a % 2 + b % 2) % 2
    digit = omega (arith, bit_xor-low a b)

-- A step gives 0 only on 0.
crc_bit-eq-zero : (c : ℕ) → c < 2 ^ 32 → crc_bit c ≡ 0 → c ≡ 0
unfolding crc_bit
crc_bit-eq-zero c below e = ground (arith, bit_xor-eq-zero (c / 2) 0xedb88320)

crc_bit-lt : (c : ℕ) → c < 2 ^ 32 → crc_bit c < 2 ^ 32
unfolding crc_bit
crc_bit-lt c below = ground (arith, bit_xor-lt 32 (c / 2) 0xedb88320 (omega arith) (omega arith))

crc_bit_double : (x : ℕ) → crc_bit (2 * x) ≡ x
unfolding crc_bit
crc_bit_double x = ground arith

-- Eight steps, and what each law becomes of them.
abbrev pub crc_bits : ℕ → ℕ → ℕ
crc_bits zero c = c
crc_bits (suc n) c = crc_bits n (crc_bit c)

crc_bits-bit_xor : (n a b : ℕ) → crc_bits n (bit_xor a b) ≡ bit_xor (crc_bits n a) (crc_bits n b)
crc_bits-bit_xor zero a b = refl
crc_bits-bit_xor (suc n) a b =
    ap (crc_bits n) (crc_bit-bit_xor a b) ∙ crc_bits-bit_xor n (crc_bit a) (crc_bit b)

crc_bits-eq-zero : (n c : ℕ) → c < 2 ^ 32 → crc_bits n c ≡ 0 → c ≡ 0
crc_bits-eq-zero zero c below e = e
crc_bits-eq-zero (suc n) c below e =
    crc_bit-eq-zero c below (crc_bits-eq-zero n (crc_bit c) (crc_bit-lt c below) e)

crc_bits-lt : (n c : ℕ) → c < 2 ^ 32 → crc_bits n c < 2 ^ 32
crc_bits-lt zero c below = below
crc_bits-lt (suc n) c below = crc_bits-lt n (crc_bit c) (crc_bit-lt c below)

crc_byte-bits : (c b : ℕ) → crc_byte c b ≡ crc_bits 8 (bit_xor c b)
unfolding crc_byte
crc_byte-bits c b = refl

crc_bits_shift : (n x : ℕ) → crc_bits n (2 ^ n * x) ≡ x
crc_bits_shift zero x = omega arith
crc_bits_shift (suc n) x =
    ap (crc_bits n) (ap crc_bit double ∙ crc_bit_double (2 ^ n * x)) ∙ crc_bits_shift n x
  where
    double : 2 ^ suc n * x ≡ 2 * (2 ^ n * x)
    double = ap (λ (m : ℕ). m * x) (pow-succ' 2 n) ∙ mul_assoc 2 (2 ^ n) x

-- The steps of so many bytes.
abbrev pub rounds : ℕ → ℕ → ℕ
rounds zero c = c
rounds (suc n) c = rounds n (crc_bits 8 c)

pub rounds-bit_xor : (n a b : ℕ) → rounds n (bit_xor a b) ≡ bit_xor (rounds n a) (rounds n b)
rounds-bit_xor zero a b = refl
rounds-bit_xor (suc n) a b =
    ap (rounds n) (crc_bits-bit_xor 8 a b) ∙ rounds-bit_xor n (crc_bits 8 a) (crc_bits 8 b)

pub rounds-eq-zero : (n c : ℕ) → c < 2 ^ 32 → rounds n c ≡ 0 → c ≡ 0
rounds-eq-zero zero c below e = e
rounds-eq-zero (suc n) c below e =
    crc_bits-eq-zero 8 c below (rounds-eq-zero n (crc_bits 8 c) (crc_bits-lt 8 c below) e)

pub rounds-lt : (n c : ℕ) → c < 2 ^ 32 → rounds n c < 2 ^ 32
rounds-lt zero c below = below
rounds-lt (suc n) c below = rounds-lt n (crc_bits 8 c) (crc_bits-lt 8 c below)

-- A number is its lowest byte beside the rest.
byte_split : (v : ℕ) → v ≡ bit_xor (v % 256) (256 * (v / 256))
byte_split v = omega (
  arith,
  bit_xor-mod 8 (v % 256) (256 * (v / 256)),
  bit_xor-shift (v % 256) (256 * (v / 256)),
  ap₂ bit_xor low_mod rest_mod,
  bit_xor-zero (v % 256),
  ap₂ bit_xor low_div rest_div,
  zero-bit_xor (v / 256),
)
  where
    low_mod : v % 256 % 2 ^ 8 ≡ v % 256
    low_mod = omega arith

    rest_mod : 256 * (v / 256) % 2 ^ 8 ≡ 0
    rest_mod = omega arith

    low_div : v % 256 / 256 ≡ 0
    low_div = omega arith

    rest_div : 256 * (v / 256) / 256 ≡ v / 256
    rest_div = omega arith

crc_byte_split : (c v : ℕ) → bit_xor (crc_byte c (v % 256)) (v / 256) ≡ crc_bits 8 (bit_xor c v)
crc_byte_split c v =
    ap₂ bit_xor (crc_byte-bits c (v % 256)) (sym (crc_bits_shift 8 (v / 256)))
    ∙ sym (crc_bits-bit_xor 8 (bit_xor c (v % 256)) (256 * (v / 256)))
    ∙ ap (crc_bits 8)
        (bit_xor_assoc c (v % 256) (256 * (v / 256)) ∙ ap (bit_xor c) (sym (byte_split v)))

-- A field is taken in as one number.
crc_loop-le : (w c v : ℕ) → v < 256 ^ w → crc_loop c (le w v) ≡ rounds w (bit_xor c v)
unfolding crc_loop
crc_loop-le zero c zero below = sym (bit_xor-zero c)
crc_loop-le zero c (suc v) below = absurd (omega arith)
crc_loop-le (suc w) c v below =
    crc_loop-le w (crc_byte c (v % 256)) (v / 256) (omega (arith, pow-suc 256 w))
    ∙ ap (rounds w) (crc_byte_split c v)

crc_loop-append : (c : ℕ) (xs ys : Bytes) → crc_loop c (xs ++ ys) ≡ crc_loop (crc_loop c xs) ys
unfolding crc_loop
crc_loop-append c [] ys = refl
crc_loop-append c (x ∷ xs) ys = crc_loop-append (crc_byte c x) xs ys

-- What two states differ by is carried through the same bytes.
crc_loop-carried :
    (s t : ℕ) (bs : Bytes)
    → bit_xor (crc_loop s bs) (crc_loop t bs) ≡ rounds (length bs) (bit_xor s t)
unfolding crc_loop
crc_loop-carried s t [] = refl
crc_loop-carried s t (b ∷ bs) =
    crc_loop-carried (crc_byte s b) (crc_byte t b) bs
    ∙ ap (rounds (length bs)) (
        ap₂ bit_xor (crc_byte-bits s b) (crc_byte-bits t b)
        ∙ sym (crc_bits-bit_xor 8 (bit_xor s b) (bit_xor t b))
        ∙ ap (crc_bits 8) (
            bit_xor_swap s b t b
            ∙ ap (bit_xor (bit_xor s t)) (bit_xor_self b)
            ∙ bit_xor-zero (bit_xor s t)))

crc_loop-word :
    (c a b : ℕ) (pre post : Bytes)
    → a < 2 ^ 32
    → b < 2 ^ 32
    → bit_xor (crc_loop c (pre ++ (le 4 a ++ post))) (crc_loop c (pre ++ (le 4 b ++ post)))
      ≡ rounds (length post) (rounds 4 (bit_xor a b))
crc_loop-word c a b pre post small small' =
    ap₂ bit_xor (taken a small) (taken b small')
    ∙ crc_loop-carried (rounds 4 (bit_xor s a)) (rounds 4 (bit_xor s b)) post
    ∙ ap (rounds (length post)) (
        sym (rounds-bit_xor 4 (bit_xor s a) (bit_xor s b))
        ∙ ap (rounds 4) (
            bit_xor_swap s a s b
            ∙ ap (λ (x : ℕ). bit_xor x (bit_xor a b)) (bit_xor_self s)
            ∙ zero-bit_xor (bit_xor a b)))
  where
    s : ℕ
    s = crc_loop c pre

    taken :
        (v : ℕ)
        → v < 2 ^ 32
        → crc_loop c (pre ++ (le 4 v ++ post)) ≡ crc_loop (rounds 4 (bit_xor s v)) post
    taken v small =
        crc_loop-append c pre (le 4 v ++ post)
        ∙ crc_loop-append s (le 4 v) post
        ∙ ap (λ (x : ℕ). crc_loop x post) (crc_loop-le 4 s v small)

-- What two values of one word do to the checksum, apart from the bytes before it.
pub crc32_word_change :
    (a b : ℕ) (pre post : Bytes)
    → a < 2 ^ 32
    → b < 2 ^ 32
    → bit_xor (crc32 (pre ++ (le 4 a ++ post))) (crc32 (pre ++ (le 4 b ++ post)))
      ≡ rounds (length post) (rounds 4 (bit_xor a b))
unfolding crc32
crc32_word_change a b pre post small small' =
    sym (bit_xor-mod 32 (bit_xor s ones) (bit_xor t ones))
    ∙ ap (λ (x : ℕ). x % 2 ^ 32)
        (bit_xor_swap s ones t ones
          ∙ ap (bit_xor (bit_xor s t)) (bit_xor_self ones)
          ∙ bit_xor-zero (bit_xor s t)
          ∙ crc_loop-word ones a b pre post small small')
    ∙ mod-eq_of_lt (
        rounds-lt (length post) (rounds 4 (bit_xor a b))
          (rounds-lt 4 (bit_xor a b) (bit_xor-lt 32 a b small small')))
  where
    ones : ℕ
    ones = 0xffffffff

    s : ℕ
    s = crc_loop ones (pre ++ (le 4 a ++ post))

    t : ℕ
    t = crc_loop ones (pre ++ (le 4 b ++ post))
