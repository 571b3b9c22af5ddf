-- ===== src/Updater/Patch/Linear.antt =====
-- The columns of `crc_patch`: what a word adds to the checksum of its chunk.
use kb.Base.{
  ℕ, zero, suc, ◌+◌, ◌*◌, ◌/◌, ◌%◌, ◌^◌, ◌≤◌, ◌<◌, bit_xor, ◌≡◌, sym, ap, ap₂, ◌∙◌, arith,
  digit_split, scale-bit_xor, bit_xor_self,
}
use native.Mathlib.Nat.{pow-suc, mod-eq_of_lt, mul_assoc}
use kb.Updater.Gf2.Columns.{selected, combine}
use kb.Updater.Patch.{crc_columns}

-- A function that adds up without carries, read off its values at the powers of two.
module _ (f : ℕ → ℕ) (f-bit_xor : (a b : ℕ) → f (bit_xor a b) ≡ bit_xor (f a) (f b))
    (f-lt : (bit : ℕ) → bit < 32 → f (2 ^ bit) < 2 ^ 32) where
  f-zero : f 0 ≡ 0
  f-zero = f-bit_xor 0 0 ∙ bit_xor_self (f 0)

  selected-power :
      (digit bit : ℕ) → digit < 2 → bit < 32 → selected digit (f (2 ^ bit)) ≡ f (2 ^ bit * digit)
  selected-power zero bit below inside = sym f-zero ∙ ap f (omega arith)
  selected-power (suc zero) bit below inside = mod-eq_of_lt (f-lt bit inside) ∙ ap f (omega arith)
  selected-power (suc (suc digit)) bit below inside = absurd (omega arith)

  pub combine-powers :
      (count bit c : ℕ)
      → bit + count ≤ 32
      → c < 2 ^ count
      → combine (crc_columns f bit count) c ≡ f (2 ^ bit * c)
  combine-powers zero bit zero inside below = sym f-zero ∙ ap f (omega arith)
  combine-powers zero bit (suc c) inside below = absurd (omega arith)
  combine-powers (suc count) bit c inside below =
      ap₂ bit_xor (selected-power (c % 2) bit (omega arith) (omega arith))
        (combine-powers count (suc bit) (c / 2) (omega arith) (omega (arith, pow-suc 2 count)))
      ∙ sym (f-bit_xor (2 ^ bit * (c % 2)) (2 ^ suc bit * (c / 2)))
      ∙ ap f (
          ap (bit_xor (2 ^ bit * (c % 2))) twice
          ∙ scale-bit_xor bit (c % 2) (2 * (c / 2))
          ∙ ap (λ (x : ℕ). 2 ^ bit * x) (digit_split c))
    where
      twice : 2 ^ suc bit * (c / 2) ≡ 2 ^ bit * (2 * (c / 2))
      twice = ap (λ (m : ℕ). m * (c / 2)) (pow-suc 2 bit) ∙ mul_assoc (2 ^ bit) 2 (c / 2)
