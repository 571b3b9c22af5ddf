-- ===== src/Updater/Bitwise.antt =====
-- The bytewise operations of the planner: what a program and an erase make of a byte string, and
-- which byte strings lie between the two.
use kb.Base.{
  ℕ, zero, suc, bit_and, ◌≡◌, refl, sym, ap, ap₂, ◌∙◌, true, [], ◌∷◌, ◌++◌, arith, ◌==◌, ==_iff,
  ==_refl, and-eq-true, length, length-replicate, Bytes, IsBytes, bit_or-full, bit_and-full,
  bit_and_comm, bit_and_self, bit_and_absorb, bit_or_self,
}
use kb.Updater.Operations.{
  erased, and_bytes, is_clearing, clears_through, sets_through, program_prefix, erase_prefix,
}

pub length-erased : (n : ℕ) → length (erased n) ≡ n
unfolding erased
length-erased n = length-replicate n 255

pub length-and_bytes :
    (xs ys : Bytes) → length xs ≡ length ys → length (and_bytes xs ys) ≡ length xs
length-and_bytes [] ys h = refl
length-and_bytes (x ∷ xs) [] h = absurd (omega arith)
length-and_bytes (x ∷ xs) (y ∷ ys) h = ap suc (length-and_bytes xs ys (omega arith))

-- A byte string that only clears bits is what its program leaves.
pub is_clearing-and_bytes :
    (xs ys : Bytes) → is_clearing xs ys ≡ true → length xs ≡ length ys → and_bytes xs ys ≡ ys
is_clearing-and_bytes [] [] h e = refl
is_clearing-and_bytes [] (y ∷ ys) h e = absurd (omega arith)
is_clearing-and_bytes (x ∷ xs) [] h e = absurd (omega arith)
is_clearing-and_bytes (x ∷ xs) (y ∷ ys) h e =
    let both = and-eq-true (bit_and x y == y) (is_clearing xs ys) h in
    ap₂ ◌∷◌ ((==_iff _ y).0 both.0) (is_clearing-and_bytes xs ys both.1 (omega arith))

pub is_clearing-append :
    (xs xs' ys ys' : Bytes)
    → length xs ≡ length ys
    → is_clearing (xs ++ xs') (ys ++ ys') ≡ true
    → (is_clearing xs ys ≡ true) × (is_clearing xs' ys' ≡ true)
is_clearing-append [] xs' [] ys' e h = (refl, h)
is_clearing-append [] xs' (y ∷ ys) ys' e h = absurd (omega arith)
is_clearing-append (x ∷ xs) xs' [] ys' e h = absurd (omega arith)
is_clearing-append (x ∷ xs) xs' (y ∷ ys) ys' e h =
    let both = and-eq-true (bit_and x y == y) (is_clearing (xs ++ xs') (ys ++ ys')) h in
    let rest = is_clearing-append xs xs' ys ys' (omega arith) both.1 in
    (rw (both.0, rest.0), rest.1)

-- Erased bytes take any bytes.
pub is_clearing-erased : (n : ℕ) (ys : Bytes) → IsBytes ys → is_clearing (erased n) ys ≡ true
unfolding erased
is_clearing-erased zero ys b = refl
is_clearing-erased (suc n) [] b = refl
is_clearing-erased (suc n) (y ∷ ys) b =
    rw (bit_and-full y b.0, ==_refl y) (is_clearing-erased n ys b.1)

-- Only erased bytes take erased bytes.
pub clearing_to_erased :
    (xs : Bytes) → IsBytes xs → is_clearing xs (erased (length xs)) ≡ true → xs ≡ erased (length xs)
unfolding erased
clearing_to_erased [] b h = refl
clearing_to_erased (x ∷ xs) b h =
    let both = and-eq-true (bit_and x 255 == 255) _ h in
    let full : bit_and x 255 ≡ x = bit_and_comm x 255 ∙ bit_and-full x b.0 in
    ap₂ ◌∷◌ (sym full ∙ (==_iff _ 255).0 both.0) (clearing_to_erased xs b.1 both.1)

-- A program and an erase go from the old bytes to the new ones.
pub clears_through-and_bytes :
    (xs ys : Bytes) → clears_through xs (and_bytes xs ys) (and_bytes xs ys) ≡ true
clears_through-and_bytes [] ys = refl
clears_through-and_bytes (x ∷ xs) [] = refl
clears_through-and_bytes (x ∷ xs) (y ∷ ys) =
    rw (bit_and_absorb x y, bit_and_self (bit_and x y), ==_refl (bit_and x y))
      (clears_through-and_bytes xs ys)

pub sets_through-erased :
    (xs : Bytes) (n : ℕ) → IsBytes xs → sets_through xs (erased n) (erased n) ≡ true
unfolding erased
sets_through-erased [] n b = refl
sets_through-erased (x ∷ xs) zero b = refl
sets_through-erased (x ∷ xs) (suc n) b =
    rw (bit_or-full x b.0, bit_or_self 255) (sets_through-erased xs n b.1)

-- So does each of their prefixes.
pub clears_through-program_prefix :
    (cut : ℕ) (xs ys : Bytes)
    → is_clearing xs ys ≡ true
    → clears_through xs (program_prefix cut xs ys) ys ≡ true
clears_through-program_prefix zero [] ys h = refl
clears_through-program_prefix zero (x ∷ xs) [] h = refl
clears_through-program_prefix zero (x ∷ xs) (y ∷ ys) h =
    let both = and-eq-true (bit_and x y == y) (is_clearing xs ys) h in
    rw (bit_and_self x, ==_refl x, both.0) (clears_through-program_prefix zero xs ys both.1)
clears_through-program_prefix (suc cut) [] ys h = refl
clears_through-program_prefix (suc cut) (x ∷ xs) [] h = refl
clears_through-program_prefix (suc cut) (x ∷ xs) (y ∷ ys) h =
    let both = and-eq-true (bit_and x y == y) (is_clearing xs ys) h in
    let same : bit_and x y ≡ y = (==_iff _ y).0 both.0 in
    rw (same, same, bit_and_self y, ==_refl y) (clears_through-program_prefix cut xs ys both.1)

pub sets_through-erase_prefix :
    (cut : ℕ) (xs : Bytes)
    → IsBytes xs
    → sets_through xs (erase_prefix cut xs) (erased (length xs)) ≡ true
unfolding erased
sets_through-erase_prefix zero [] b = refl
sets_through-erase_prefix zero (x ∷ xs) b =
    rw (bit_or_self x, ==_refl x, bit_or-full x b.0) (sets_through-erase_prefix zero xs b.1)
sets_through-erase_prefix (suc cut) [] b = refl
sets_through-erase_prefix (suc cut) (x ∷ xs) b =
    rw (bit_or-full x b.0, bit_or_self 255) (sets_through-erase_prefix cut xs b.1)

pub length-program_prefix :
    (cut : ℕ) (xs ys : Bytes) → length (program_prefix cut xs ys) ≡ length xs
length-program_prefix zero xs ys = refl
length-program_prefix (suc cut) [] ys = refl
length-program_prefix (suc cut) (x ∷ xs) [] = refl
length-program_prefix (suc cut) (x ∷ xs) (y ∷ ys) = ap suc (length-program_prefix cut xs ys)

pub length-erase_prefix : (cut : ℕ) (xs : Bytes) → length (erase_prefix cut xs) ≡ length xs
length-erase_prefix zero xs = refl
length-erase_prefix (suc cut) [] = refl
length-erase_prefix (suc cut) (x ∷ xs) = ap suc (length-erase_prefix cut xs)
