-- ===== src/Updater/Patch/Total.antt =====
-- `crc_patch` on every chunk that holds its word: it succeeds, and no other word has the checksum.
use kb.Base.{
  ℕ, zero, suc, ◌+◌, ◌^◌, ◌≤◌, ◌<◌, bit_xor, ◌≡◌, refl, sym, ap, ap₂, ◌∙◌, List, ◌∷◌, arith, le→leb,
  ==_refl, length, take, drop, length-take, Bytes, le, crc32, crc32-lt, bit_xor_injective,
  bit_xor-eq-zero, crc32_word_change, rounds, rounds-bit_xor, rounds-eq-zero, rounds-lt,
  bit_xor-zero, bit_xor_self, bit_xor-lt, ok,
}
use native.Mathlib.Nat.{mod-eq_of_lt}
use kb.Updater.Operations.{store_slice}
use kb.Updater.Applied.{store_slice-append}
use kb.Updater.Gf2.{gf2_solve}
use kb.Updater.Gf2.Columns.{combine}
use kb.Updater.Gf2.Solved.{gf2_solve_sound}
use kb.Updater.Gf2.Elimination.{power-lt}
use kb.Updater.Gf2.Independent.{IsIndependent, gf2_solve_independent}
use kb.Updater.Patch.{crc_columns, crc_with_word, zeroed, word_columns, crc_patch, crc_word_rank}
use kb.Updater.Patch.Linear.{combine-powers}

-- What a word adds to the checksum when so many bytes follow it.
adds : ℕ → ℕ → ℕ
adds after word = rounds after (rounds 4 word)

adds-bit_xor : (after a b : ℕ) → adds after (bit_xor a b) ≡ bit_xor (adds after a) (adds after b)
unfolding adds
adds-bit_xor after a b =
    ap (rounds after) (rounds-bit_xor 4 a b) ∙ rounds-bit_xor after (rounds 4 a) (rounds 4 b)

adds-lt : (after word : ℕ) → word < 2 ^ 32 → adds after word < 2 ^ 32
unfolding adds
adds-lt after word small = rounds-lt after (rounds 4 word) (rounds-lt 4 word small)

adds-eq-zero : (after word : ℕ) → word < 2 ^ 32 → adds after word ≡ 0 → word ≡ 0
unfolding adds
adds-eq-zero after word small e =
    rounds-eq-zero 4 word small (rounds-eq-zero after (rounds 4 word) (rounds-lt 4 word small) e)

crc_columns_agree :
    (f g : ℕ → ℕ) (count bit : ℕ)
    → ((i : ℕ) → i < 32 → f (2 ^ i) ≡ g (2 ^ i))
    → bit + count ≤ 32
    → crc_columns f bit count ≡ crc_columns g bit count
crc_columns_agree f g zero bit same inside = refl
crc_columns_agree f g (suc count) bit same inside =
    ap₂ ◌∷◌ (same bit (omega arith)) (crc_columns_agree f g count (suc bit) same (omega arith))

length-crc_columns : (f : ℕ → ℕ) (count bit : ℕ) → length (crc_columns f bit count) ≡ count
length-crc_columns f zero bit = refl
length-crc_columns f (suc count) bit = ap suc (length-crc_columns f count (suc bit))

-- A chunk with its word cleared, and with another word in its place.
zeroed-word :
    (chunk : Bytes) (offset v : ℕ)
    → offset + 4 ≤ length chunk
    → store_slice (zeroed chunk offset) offset (offset + 4) (le 4 v)
      ≡ store_slice chunk offset (offset + 4) (le 4 v)
zeroed-word chunk offset v inside =
    store_slice-append offset 4 (take offset chunk) (le 4 0) (drop (offset + 4) chunk) (le 4 v)
      (omega (arith, length-take offset chunk)) refl

module _ (chunk : Bytes) (offset : ℕ) (inside : offset + 4 ≤ length chunk) where
  after : ℕ
  after = length (drop (offset + 4) chunk)

  word_adds :
      (a b : ℕ)
      → a < 2 ^ 32
      → b < 2 ^ 32
      → bit_xor (crc_with_word chunk offset (le 4 a)) (crc_with_word chunk offset (le 4 b))
        ≡ adds after (bit_xor a b)
  unfolding adds after
  word_adds a b small small' =
      crc32_word_change a b (take offset chunk) (drop (offset + 4) chunk) small small'

  column_adds :
      (word : ℕ)
      → word < 2 ^ 32
      → bit_xor
          (crc_with_word (zeroed chunk offset) offset (le 4 word))
          (crc32 (zeroed chunk offset))
        ≡ adds after word
  column_adds word small =
      ap (λ (bs : Bytes). bit_xor (crc32 bs) (crc32 (zeroed chunk offset)))
        (zeroed-word chunk offset word inside)
      ∙ word_adds word 0 small (omega arith)
      ∙ ap (adds after) (bit_xor-zero word)

  word_combine :
      (v : ℕ) → v < 2 ^ 32 → combine (word_columns (zeroed chunk offset) offset) v ≡ adds after v
  word_combine v small =
      ap (λ (columns : List ℕ). combine columns v)
        (crc_columns_agree column (adds after) 32 0
          (λ i inside'. column_adds (2 ^ i) (power-lt i inside')) (omega arith))
      ∙ combine-powers (adds after) (adds-bit_xor after)
          (λ bit inside'. adds-lt after (2 ^ bit) (power-lt bit inside')) 32 0 v (omega arith) small
      ∙ ap (adds after) (omega arith)
    where
      column : ℕ → ℕ
      column word =
          bit_xor (crc_with_word (zeroed chunk offset) offset (le 4 word))
            (crc32 (zeroed chunk offset))

  words-IsIndependent : IsIndependent (word_columns (zeroed chunk offset) offset)
  unfolding IsIndependent
  words-IsIndependent c small e = adds-eq-zero after c small (sym (word_combine c small) ∙ e)

  solved :
      (target : ℕ)
      → target < 2 ^ 32
      → (value : ℕ) × (gf2_solve (word_columns (zeroed chunk offset) offset) target
          ≡ ok (value, 32))
        × (value < 2 ^ 32)
        × (adds after value ≡ target)
  solved target small =
      let columns = word_columns (zeroed chunk offset) offset in
      let (value, found) =
        gf2_solve_independent columns target
          (length-crc_columns
            (λ word.
              bit_xor (crc_with_word (zeroed chunk offset) offset (le 4 word))
                (crc32 (zeroed chunk offset)))
            32 0)
          words-IsIndependent in
      let (sum, word) = gf2_solve_sound columns target value 32 found in
      (value, found, word, sym (word_combine value word) ∙ sum ∙ mod-eq_of_lt small)

  -- In every chunk that holds the word the 32 columns of the word have full rank.
  pub crc_word_rank_full : crc_word_rank chunk offset ≡ ok 32
  unfolding crc_word_rank
  crc_word_rank_full =
      let (value, found, word, sum) = solved 0 (omega arith) in
      rw (le→leb (offset + 4) (length chunk) inside, found) refl

  balanced :
      (value wanted : ℕ)
      → value < 2 ^ 32
      → adds after value ≡ bit_xor wanted (crc32 (zeroed chunk offset))
      → crc_with_word (zeroed chunk offset) offset (le 4 value) ≡ wanted
  balanced value wanted small sum =
      bit_xor_injective (crc_with_word (zeroed chunk offset) offset (le 4 value)) wanted
        (crc32 (zeroed chunk offset)) (column_adds value small ∙ sum)

  -- For every chunk that holds the four bytes at the offset and every checksum of 32 bits the
  -- solver succeeds with rank 32, the recomputation agrees, and the correction that is returned,
  -- stored at the offset, gives the chunk the checksum.
  pub crc_patch_total :
      (wanted : ℕ)
      → wanted < 2 ^ 32
      → (value : ℕ) × (crc_patch chunk offset wanted ≡ ok (le 4 value, 32))
        × (crc_with_word chunk offset (le 4 value) ≡ wanted)
        × (value < 2 ^ 32)
  unfolding crc_patch
  crc_patch_total wanted small =
      let base = zeroed chunk offset in
      let (value, found, word, sum) =
        solved (bit_xor wanted (crc32 base))
          (bit_xor-lt 32 wanted (crc32 base) small (crc32-lt base)) in
      let right = balanced value wanted word sum in
      (
        value,
        rw (le→leb (offset + 4) (length chunk) inside, found, right, ==_refl wanted) refl,
        ap crc32 (sym (zeroed-word chunk offset value inside)) ∙ right,
        word,
      )

  -- Two words with one checksum are the same.
  pub crc_with_word_injective :
      (a b : ℕ)
      → a < 2 ^ 32
      → b < 2 ^ 32
      → crc_with_word chunk offset (le 4 a) ≡ crc_with_word chunk offset (le 4 b)
      → a ≡ b
  crc_with_word_injective a b small small' e = bit_xor-eq-zero a b (
      adds-eq-zero after (bit_xor a b) (bit_xor-lt 32 a b small small') (
        sym (word_adds a b small small')
        ∙ ap (λ (x : ℕ). bit_xor x (crc_with_word chunk offset (le 4 b))) e
        ∙ bit_xor_self (crc_with_word chunk offset (le 4 b))))
