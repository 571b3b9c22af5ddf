-- ===== src/Base/ByteStrings.antt =====
-- Byte strings as lists of numbers, and the little-endian fields of `struct`.
use Prim.Native.Nat.{ℕ, zero, suc, ◌+◌, ◌*◌, ◌/◌, ◌%◌, ◌^◌, ◌≤◌, ◌<◌}
use mathlib.Core.Path.{◌≡◌, refl, ap, ap₂}
use mathlib.Core.Bool.{Bool, true, false, ◌&&◌, ◌||◌}
use mathlib.Core.List.{List, [], ◌∷◌, ◌++◌}
use native.Mathlib.Nat.{pow-suc}
use native.Mathlib.Omega.{arith}
use kb.Base.Lists.{length, take, drop, replicate}
use kb.Base.Tests.{◌==◌, ◌!=◌}

abbrev pub Bytes : Type 0
Bytes = List ℕ

-- Every element is a byte.
abbrev pub IsBytes : Bytes → Type 0
IsBytes [] = Unit
IsBytes (x ∷ xs) = (x < 256) × IsBytes xs

-- The `w` bytes of a little-endian field: `B`, `H` and `I` of `struct` for 1, 2 and 4.
abbrev pub le : ℕ → ℕ → Bytes
le zero n = []
le (suc w) n = (n % 256) ∷ le w (n / 256)

abbrev pub le_value : Bytes → ℕ
le_value [] = 0
le_value (x ∷ xs) = x + 256 * le_value xs

-- `xs.ljust(n, b"\0")`
abbrev pub ljust : ℕ → Bytes → Bytes
ljust zero xs = xs
ljust (suc n) [] = 0 ∷ ljust n []
ljust (suc n) (x ∷ xs) = x ∷ ljust n xs

-- `any(xs)`
abbrev pub any : Bytes → Bool
any [] = false
any (x ∷ xs) = (x != 0) || any xs

-- `xs == ys`
abbrev pub eq_bytes : Bytes → Bytes → Bool
eq_bytes [] [] = true
eq_bytes [] (y ∷ ys) = false
eq_bytes (x ∷ xs) [] = false
eq_bytes (x ∷ xs) (y ∷ ys) = (x == y) && eq_bytes xs ys

pub eq_bytes_sound : (xs ys : Bytes) → eq_bytes xs ys ≡ true → xs ≡ ys
eq_bytes_sound [] [] h = refl
eq_bytes_sound [] (y ∷ ys) h = cc
eq_bytes_sound (x ∷ xs) [] h = cc
eq_bytes_sound (x ∷ xs) (y ∷ ys) h = ground (arith, eq_bytes_sound xs ys)

pub eq_bytes_refl : (xs : Bytes) → eq_bytes xs xs ≡ true
eq_bytes_refl [] = refl
eq_bytes_refl (x ∷ xs) = ground (arith, eq_bytes_refl xs)

pub IsBytes-append : (xs ys : Bytes) → IsBytes xs → IsBytes ys → IsBytes (xs ++ ys)
IsBytes-append [] ys p q = q
IsBytes-append (x ∷ xs) ys p q = (p.0, IsBytes-append xs ys p.1 q)

pub IsBytes-take : (n : ℕ) (xs : Bytes) → IsBytes xs → IsBytes (take n xs)
IsBytes-take zero xs p = tt
IsBytes-take (suc n) [] p = tt
IsBytes-take (suc n) (x ∷ xs) p = (p.0, IsBytes-take n xs p.1)

pub IsBytes-drop : (n : ℕ) (xs : Bytes) → IsBytes xs → IsBytes (drop n xs)
IsBytes-drop zero xs p = p
IsBytes-drop (suc n) [] p = tt
IsBytes-drop (suc n) (x ∷ xs) p = IsBytes-drop n xs p.1

pub IsBytes-replicate : (n b : ℕ) → b < 256 → IsBytes (replicate n b)
IsBytes-replicate zero b h = tt
IsBytes-replicate (suc n) b h = (h, IsBytes-replicate n b h)

pub IsBytes-le : (w n : ℕ) → IsBytes (le w n)
IsBytes-le zero n = tt
IsBytes-le (suc w) n = (omega arith, IsBytes-le w (n / 256))

pub length-le : (w n : ℕ) → length (le w n) ≡ w
length-le zero n = refl
length-le (suc w) n = ap suc (length-le w (n / 256))

-- A field of `w` bytes is written back as it was read.
pub le-le_value : (w : ℕ) (xs : Bytes) → length xs ≡ w → IsBytes xs → le w (le_value xs) ≡ xs
le-le_value zero [] h p = refl
le-le_value zero (x ∷ xs) h p = absurd (omega arith)
le-le_value (suc w) [] h p = absurd (omega arith)
le-le_value (suc w) (x ∷ xs) h p =
    let rest : (x + 256 * le_value xs) / 256 ≡ le_value xs = omega arith in
    ap₂ ◌∷◌ (omega arith) (rw rest (le-le_value w xs (omega arith) p.1))

-- A field of `w` bytes is below 256 ^ w.
pub le_value-lt : (w : ℕ) (xs : Bytes) → length xs ≡ w → IsBytes xs → le_value xs < 256 ^ w
le_value-lt zero [] h p = omega arith
le_value-lt zero (x ∷ xs) h p = absurd (omega arith)
le_value-lt (suc w) [] h p = absurd (omega arith)
le_value-lt (suc w) (x ∷ xs) h p = omega (arith, pow-suc 256 w, le_value-lt w xs (omega arith) p.1)

pub length-ljust : (n : ℕ) (xs : Bytes) → length xs ≤ n → length (ljust n xs) ≡ n
length-ljust zero [] h = refl
length-ljust zero (x ∷ xs) h = absurd (omega arith)
length-ljust (suc n) [] h = ap suc (length-ljust n [] (omega arith))
length-ljust (suc n) (x ∷ xs) h = ap suc (length-ljust n xs (omega arith))

pub IsBytes-ljust : (n : ℕ) (xs : Bytes) → IsBytes xs → IsBytes (ljust n xs)
IsBytes-ljust zero xs p = p
IsBytes-ljust (suc n) [] p = (omega arith, IsBytes-ljust n [] tt)
IsBytes-ljust (suc n) (x ∷ xs) p = (p.0, IsBytes-ljust n xs p.1)

-- Padding what has the full length already changes nothing.
pub ljust-full : (n : ℕ) (xs : Bytes) → length xs ≡ n → ljust n xs ≡ xs
ljust-full zero xs h = refl
ljust-full (suc n) [] h = absurd (omega arith)
ljust-full (suc n) (x ∷ xs) h = ap (◌∷◌ x) (ljust-full n xs (omega arith))

pub take-ljust : (n : ℕ) (xs : Bytes) → length xs ≤ n → take (length xs) (ljust n xs) ≡ xs
take-ljust n [] h = refl
take-ljust zero (x ∷ xs) h = absurd (omega arith)
take-ljust (suc n) (x ∷ xs) h = ap (◌∷◌ x) (take-ljust n xs (omega arith))

pub any-ljust-nil : (n : ℕ) → any (ljust n []) ≡ false
any-ljust-nil zero = refl
any-ljust-nil (suc n) = any-ljust-nil n

pub any-drop-ljust : (n : ℕ) (xs : Bytes) → any (drop (length xs) (ljust n xs)) ≡ false
any-drop-ljust n [] = any-ljust-nil n
any-drop-ljust zero (x ∷ xs) = drop_self xs
  where
    drop_self : (ys : Bytes) → any (drop (length ys) ys) ≡ false
    drop_self [] = refl
    drop_self (y ∷ ys) = drop_self ys
any-drop-ljust (suc n) (x ∷ xs) = any-drop-ljust n xs
