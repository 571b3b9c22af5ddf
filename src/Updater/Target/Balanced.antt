-- ===== src/Updater/Target/Balanced.antt =====
-- `build_target_region` on a region whose marker and geometry are right.
use kb.Base.{
  ℕ, ◌+◌, ◌-◌, ◌/◌, ◌%◌, ◌^◌, ◌≤◌, ◌<◌, ◌≡◌, refl, sym, ap, subst, ◌∙◌, arith, length, slice,
  length-slice, Bytes, le, crc32-lt,
}
use kb.Updater.Regions.{block_bytes, RegionSpec}
use kb.Updater.Operations.{store_slice}
use kb.Updater.Applied.{three_parts}
use kb.Updater.Sequence.{fwin_checksum}
use kb.Updater.Patch.{crc_with_word}
use kb.Updater.Patch.Total.{crc_with_word_injective}
use kb.Updater.Target.{chunk_start, chunk_of, other_sum, wanted_chunk}
use kb.Updater.Target.Chunks.{chunk_size, fwin_checksum-store}

-- Storing what is there.
pub store_same : (xs : Bytes) (a k : ℕ) → store_slice xs a (a + k) (slice xs a k) ≡ xs
store_same xs a k = sym (three_parts a k xs)

-- A word at a block's start is in one chunk.
word_in_chunk : (a : ℕ) → a % block_bytes ≡ 0 → a % 0x10000 + 4 ≤ 0x10000
word_in_chunk a aligned = omega arith

-- The chunk that the code takes, and where its word is.
pub chunk_of_lem :
    (region : Bytes) (spec : RegionSpec) (offset : ℕ)
    → length region ≡ spec.region_length
    → chunk_of region spec offset
      ≡ slice region (chunk_start offset) (chunk_size (chunk_start offset) (length region))
chunk_of_lem region spec offset size =
    ap (λ (n : ℕ). slice region (chunk_start offset) (chunk_size (chunk_start offset) n)) (sym size)

pub word_in_slice :
    (region : Bytes) (offset : ℕ)
    → offset + 4 ≤ length region
    → offset % block_bytes ≡ 0
    → offset - chunk_start offset + 4
      ≤ length (slice region (chunk_start offset) (chunk_size (chunk_start offset) (length region)))
word_in_slice region offset fits aligned = omega (
  arith,
  length-slice region (chunk_start offset) (chunk_size (chunk_start offset) (length region))
      (omega arith),
)

pub word_in_chunk_of :
    (region : Bytes) (spec : RegionSpec) (offset : ℕ)
    → length region ≡ spec.region_length
    → offset + 4 ≤ length region
    → offset % block_bytes ≡ 0
    → offset - chunk_start offset + 4 ≤ length (chunk_of region spec offset)
word_in_chunk_of region spec offset size fits aligned =
    subst (λ bs. offset - chunk_start offset + 4 ≤ length bs)
      (sym (chunk_of_lem region spec offset size)) (word_in_slice region offset fits aligned)

add_mod_injective :
    (x y others : ℕ)
    → x < 2 ^ 32
    → y < 2 ^ 32
    → (x + others) % 2 ^ 32 ≡ (y + others) % 2 ^ 32
    → x ≡ y
add_mod_injective x y others below below' e = omega arith

balances :
    (x others others' wanted : ℕ)
    → wanted < 2 ^ 32
    → others ≡ others'
    → x ≡ (wanted + 2 ^ 32 - others' % 2 ^ 32) % 2 ^ 32
    → (x + others) % 2 ^ 32 ≡ wanted
balances x others others' wanted small same right = omega arith

-- Two words at one place with one checksum are the same.
pub fwin_checksum-store_injective :
    (region : Bytes) (offset a b : ℕ)
    → offset + 4 ≤ length region
    → offset % block_bytes ≡ 0
    → a < 2 ^ 32
    → b < 2 ^ 32
    → fwin_checksum (store_slice region offset (offset + 4) (le 4 a))
      ≡ fwin_checksum (store_slice region offset (offset + 4) (le 4 b))
    → a ≡ b
fwin_checksum-store_injective region offset a b fits aligned small small' e =
    crc_with_word_injective chunk (offset - chunk_start offset)
      (word_in_slice region offset fits aligned) a b small small'
      (add_mod_injective (crc_with_word chunk (offset - chunk_start offset) (le 4 a))
        (crc_with_word chunk (offset - chunk_start offset) (le 4 b))
        (other_sum ((length region + 0xffff) / 0x10000) 0 (chunk_start offset) (length region)
          region)
        (crc32-lt (
          store_slice chunk (offset - chunk_start offset) (offset - chunk_start offset + 4)
            (le 4 a)))
        (crc32-lt (
          store_slice chunk (offset - chunk_start offset) (offset - chunk_start offset + 4)
            (le 4 b)))
        (sym (fwin_checksum-store region offset (le 4 a) refl fits (word_in_chunk offset aligned))
          ∙ e
          ∙ fwin_checksum-store region offset (le 4 b) refl fits (word_in_chunk offset aligned)))
  where
    chunk : Bytes
    chunk = slice region (chunk_start offset) (chunk_size (chunk_start offset) (length region))

-- The word that balances the region.
pub fwin_checksum-wanted :
    (region : Bytes) (spec : RegionSpec) (w : Bytes)
    → length region ≡ spec.region_length
    → length w ≡ 4
    → spec.fixup_offset + 4 ≤ spec.region_length
    → spec.fixup_offset % block_bytes ≡ 0
    → spec.manifest_checksum < 2 ^ 32
    → crc_with_word
        (chunk_of region spec spec.fixup_offset)
        (spec.fixup_offset - chunk_start spec.fixup_offset)
        w
      ≡ wanted_chunk region spec
    → fwin_checksum (store_slice region spec.fixup_offset (spec.fixup_offset + 4) w)
      ≡ spec.manifest_checksum
fwin_checksum-wanted region spec w size word fits aligned small right =
    fwin_checksum-store region spec.fixup_offset w word (omega arith)
      (word_in_chunk spec.fixup_offset aligned)
    ∙ balances
        (crc_with_word (slice region start (chunk_size start (length region)))
          (spec.fixup_offset - start) w)
        (other_sum ((length region + 0xffff) / 0x10000) 0 start (length region) region)
        (other_sum ((spec.region_length + 0xffff) / 0x10000) 0 start spec.region_length region)
        spec.manifest_checksum small
        (ap (λ (n : ℕ). other_sum ((n + 0xffff) / 0x10000) 0 start n region) size)
        (ap (λ (bs : Bytes). crc_with_word bs (spec.fixup_offset - start) w)
            (sym (chunk_of_lem region spec spec.fixup_offset size))
          ∙ right)
  where
    start : ℕ
    start = chunk_start spec.fixup_offset
