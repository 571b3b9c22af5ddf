-- ===== src/Updater/Target/Validated.antt =====
-- `validate_target_region` on what `build_target_region` returns.
use kb.Base.{
  ℕ, ◌+◌, ◌-◌, ◌^◌, ◌≤◌, ◌<◌, min, ◌≡◌, refl, sym, ap, ◌∙◌, inl, inr, true, false, ◌&&◌, some,
  arith, leb, ◌==◌, ==_iff, ==_refl, length, get_elem?, slice, Bytes, le, le_value, eq_bytes,
  eq_bytes_refl, crc32, crc32-lt, get_elem?-append_left, get_elem?-slice, slice_equal, ok,
}
use kb.Updater.Regions.{block_bytes, RegionSpec, envelope_length}
use kb.Updater.Operations.{erased, store_slice}
use kb.Updater.Applied.{require-eq-ok}
use kb.Updater.Sequence.{fwin_checksum}
use kb.Updater.Patch.{crc_patch}
use kb.Updater.Patch.Total.{crc_patch_total, crc_with_word_injective}
use kb.Updater.Target.{
  pair_bytes, pair_id_bytes, unpack_pair, is_pair_marker, validate_pair_placeholder, hex, hex_word,
  text, integer, is_text, is_number, is_int, gate_block, chunk_start, chunk_of,
}
use kb.Updater.Target.Validation.{
  is_reserved, binds_target, validate_transforms, validate_target_region, start_text, region_entry,
}
use kb.Updater.Target.Stores.{slice-store_outside, slice-store_same}
use kb.Updater.Target.Balanced.{store_same, word_in_chunk_of}
use kb.Updater.Target.Steps.{
  ==_differ, Fits, padded, id_offset, id_fits, marked, slice-marked, region, gate_room,
  slice-region_gate, target, staged, fixup_room, length-target, slice-target_gate, staged-differs,
  gate_rank, result,
}

is_text_same : (t t' : Bytes) → t ≡ t' → is_text (some (text t)) t' ≡ true
unfolding is_text
is_text_same t t' e = ap (eq_bytes t) (sym e) ∙ eq_bytes_refl t

is_number_same : (n : ℕ) → is_number (some (integer n)) n ≡ true
unfolding is_number
is_number_same n = ==_refl n

is_int_integer : (n : ℕ) → is_int (some (integer n)) ≡ true
unfolding is_int
is_int_integer n = refl

==_same : (a b : ℕ) → a ≡ b → (a == b) ≡ true
==_same a b e = (==_iff a b).1 e

same_bytes : (xs ys : Bytes) → xs ≡ ys → eq_bytes xs ys ≡ true
same_bytes xs ys e = ap (eq_bytes xs) (sym e) ∙ eq_bytes_refl xs

-- A slice of a slice.
slice-slice : (xs : Bytes) (i n j m : ℕ) → j + m ≤ n → slice (slice xs i n) j m ≡ slice xs (i + j) m
slice-slice xs i n j m fits =
    slice_equal (slice xs i n) xs j (i + j) m
      (λ d below. get_elem?-slice xs i n (j + d) (omega arith) ∙ ap (get_elem? xs) (index d))
  where
    index : (d : ℕ) → i + (j + d) ≡ i + j + d
    index d = omega arith

-- The word that a chunk holds is the one that its checksum asks for.
pub crc_patch_same :
    (chunk : Bytes) (offset value : ℕ)
    → offset + 4 ≤ length chunk
    → value < 2 ^ 32
    → slice chunk offset 4 ≡ le 4 value
    → crc_patch chunk offset (crc32 chunk) ≡ ok (le 4 value, 32)
crc_patch_same chunk offset value inside small there =
    let (found, run, right, word) =
      crc_patch_total chunk offset inside (crc32 chunk) (crc32-lt chunk) in
    let same : found ≡ value = crc_with_word_injective chunk offset inside found value word small (
      right
      ∙ ap crc32
          (sym (store_same chunk offset 4) ∙ ap (store_slice chunk offset (offset + 4)) there)) in
    run ∙ ap (λ (v : ℕ). ok (le 4 v, 32)) same

module _ (raw : Bytes) (spec : RegionSpec) (pair_id : Bytes) (pair : length pair_id ≡ pair_id_bytes)
    (fit : Fits raw spec) (value : ℕ) (word : value < 2 ^ 32) where
  abbrev pub here : Bytes
  here = target raw spec pair_id pair fit value

  slice-here_before : (i n : ℕ) → i + n ≤ spec.pair_offset + 16 → slice here i n ≡ slice raw i n
  unfolding target region marked padded id_offset
  slice-here_before i n early =
      slice-store_outside (region raw spec pair_id pair fit) spec.fixup_offset 4 (le 4 value) refl
        (fixup_room raw spec pair_id pair fit) i n
        (inl (omega (arith, fit.pair_fits, fit.raw_fits)))
      ∙ slice-store_outside (marked raw spec pair_id pair fit) spec.gate_offset 4 (le 4 0) refl
          (gate_room raw spec pair_id pair fit) i n
          (inl (omega (arith, fit.pair_fits, fit.raw_fits, fit.fixup_before)))
      ∙ slice-store_outside (padded raw spec pair_id pair fit) (id_offset raw spec pair_id pair fit)
          pair_id_bytes pair_id pair (id_fits raw spec pair_id pair fit) i n (inl (omega arith))
      ∙ slice_equal (padded raw spec pair_id pair fit) raw i i n (λ j below.
        get_elem?-append_left raw (erased (spec.region_length - length raw)) (i + j)
          (omega (arith, fit.pair_fits)))

  slice-here_id : slice here (spec.pair_offset + 16) 16 ≡ pair_id
  unfolding target region marked padded id_offset
  slice-here_id =
      ap (λ (i : ℕ). slice here i 16) place
      ∙ slice-store_outside (region raw spec pair_id pair fit) spec.fixup_offset 4 (le 4 value) refl
          (fixup_room raw spec pair_id pair fit) (id_offset raw spec pair_id pair fit) 16
          (inl (omega (arith, fit.pair_fits, fit.raw_fits)))
      ∙ slice-store_outside (marked raw spec pair_id pair fit) spec.gate_offset 4 (le 4 0) refl
          (gate_room raw spec pair_id pair fit) (id_offset raw spec pair_id pair fit) 16
          (inl (omega (arith, fit.pair_fits, fit.raw_fits, fit.fixup_before)))
      ∙ slice-store_same (padded raw spec pair_id pair fit) (id_offset raw spec pair_id pair fit)
          pair_id_bytes pair_id pair (id_fits raw spec pair_id pair fit)
    where
      place : spec.pair_offset + 16 ≡ spec.pair_offset + pair_bytes - pair_id_bytes
      place = omega arith

  slice-here_fixup : slice here spec.fixup_offset 4 ≡ le 4 value
  unfolding target
  slice-here_fixup =
      slice-store_same (region raw spec pair_id pair fit) spec.fixup_offset 4 (le 4 value) refl
        (fixup_room raw spec pair_id pair fit)

  slice-here_reserve :
      slice here (spec.fixup_offset + 4) (block_bytes - 4) ≡ erased (block_bytes - 4)
  unfolding target region
  slice-here_reserve =
      slice-store_outside (region raw spec pair_id pair fit) spec.fixup_offset 4 (le 4 value) refl
        (fixup_room raw spec pair_id pair fit) (spec.fixup_offset + 4) (block_bytes - 4)
        (inr (omega arith))
      ∙ slice-store_outside (marked raw spec pair_id pair fit) spec.gate_offset 4 (le 4 0) refl
          (gate_room raw spec pair_id pair fit) (spec.fixup_offset + 4) (block_bytes - 4)
          (inl (omega (arith, fit.fixup_before)))
      ∙ slice-marked raw spec pair_id pair fit (spec.fixup_offset + 4) (block_bytes - 4)
          (omega (arith, fit.raw_fits)) (omega (arith, fit.fixup_before, fit.gate_fits))

  field_here :
      (i n : ℕ)
      → i + n ≤ spec.pair_offset + 16
      → le_value (slice here i n) ≡ le_value (slice raw i n)
  field_here i n early = ap le_value (slice-here_before i n early)

  -- The marker of the target is that of the raw image, with the identifier of the pair.
  marker_here :
      validate_pair_placeholder raw spec ≡ ok tt
      → (is_pair_marker (unpack_pair here spec.pair_offset) spec
          && eq_bytes (slice here (spec.pair_offset + 16) 16) pair_id)
        ≡ true
  unfolding validate_pair_placeholder
  marker_here marker =
      let inner =
        (require-eq-ok (leb (spec.pair_offset + pair_bytes) (length raw)) _ tt marker).1 in
      let fields =
        (require-eq-ok (is_pair_marker (unpack_pair raw spec.pair_offset) spec) _ tt inner).0 in
      rw
        (
          field_here spec.pair_offset 4 (omega arith),
          field_here (spec.pair_offset + 4) 2 (omega arith),
          field_here (spec.pair_offset + 6) 2 (omega arith),
          field_here (spec.pair_offset + 8) 4 (omega arith),
          field_here (spec.pair_offset + 12) 4 (omega arith),
          slice-here_id,
          fields,
          eq_bytes_refl pair_id,
        )
        refl

  chunk_fits :
      spec.fixup_offset - chunk_start spec.fixup_offset + 4
      ≤ length (chunk_of here spec spec.fixup_offset)
  chunk_fits =
      word_in_chunk_of (target raw spec pair_id pair fit value) spec spec.fixup_offset
        (length-target raw spec pair_id pair fit value)
        (omega
          (arith, length-target raw spec pair_id pair fit value, fit.fixup_before, fit.gate_fits))
        fit.fixup_aligned

  word_there :
      slice
        (chunk_of here spec spec.fixup_offset)
        (spec.fixup_offset - chunk_start spec.fixup_offset)
        4
      ≡ le 4 value
  word_there =
      slice-slice here (chunk_start spec.fixup_offset)
        (min (chunk_start spec.fixup_offset + 0x10000) spec.region_length
          - chunk_start spec.fixup_offset)
        (spec.fixup_offset - chunk_start spec.fixup_offset) 4
        (omega (arith, fit.fixup_aligned, fit.fixup_before, fit.gate_fits))
      ∙ ap (λ (i : ℕ). slice here i 4) place
      ∙ slice-here_fixup
    where
      place :
          chunk_start spec.fixup_offset + (spec.fixup_offset - chunk_start spec.fixup_offset)
          ≡ spec.fixup_offset
      place = omega arith

  solved_here :
      crc_patch
        (chunk_of here spec spec.fixup_offset)
        (spec.fixup_offset - chunk_start spec.fixup_offset)
        (crc32 (chunk_of here spec spec.fixup_offset))
      ≡ ok (le 4 value, 32)
  solved_here =
      crc_patch_same (chunk_of here spec spec.fixup_offset)
        (spec.fixup_offset - chunk_start spec.fixup_offset) value chunk_fits word word_there

  binds_here :
      (sha256 : Bytes → Bytes)
      → start_text spec.name ≡ hex_word spec.start
      → fwin_checksum here ≡ spec.manifest_checksum
      → binds_target sha256 here spec
          (region_entry sha256 spec (result raw spec pair_id pair fit value))
        ≡ true
  unfolding result
  binds_here sha256 start right =
      rw
        (
          is_text_same (hex_word spec.fixup_offset) (hex_word spec.fixup_offset) refl,
          is_text_same (start_text spec.name) (hex_word spec.start) start,
          is_int_integer spec.region_length,
          is_number_same spec.region_length,
          is_int_integer (envelope_length spec),
          is_number_same (envelope_length spec),
          is_text_same (hex (le 4 value)) (hex (slice here spec.fixup_offset 4))
              (ap hex (sym slice-here_fixup)),
          is_number_same 32,
          is_text_same (hex_word spec.gate_offset) (hex_word spec.gate_offset) refl,
          is_text_same (hex (le 4 0)) (hex (le 4 0)) refl,
          is_text_same (hex_word (fwin_checksum here)) (hex_word spec.manifest_checksum)
              (ap hex_word right),
          is_text_same (sha256 here) (sha256 here) refl,
        )
        refl

  pub result_validates :
      (sha256 : Bytes → Bytes)
      → start_text spec.name ≡ hex_word spec.start
      → is_reserved pair_id ≡ false
      → validate_pair_placeholder raw spec ≡ ok tt
      → fwin_checksum here ≡ spec.manifest_checksum
      → validate_target_region sha256 here spec pair_id
          (some (region_entry sha256 spec (result raw spec pair_id pair fit value)))
        ≡ ok (staged raw spec pair_id pair fit value)
  unfolding validate_target_region validate_transforms result staged
  result_validates sha256 start free marker right =
      rw
        (
          ==_same (length here) spec.region_length (length-target raw spec pair_id pair fit value),
          ==_same (length pair_id) pair_id_bytes pair,
          free,
          marker_here marker,
          same_bytes (slice here (spec.fixup_offset + 4) (block_bytes - 4))
              (erased (block_bytes - 4)) slice-here_reserve,
          same_bytes (slice here spec.gate_offset block_bytes) gate_block (
              slice-target_gate raw spec pair_id pair fit value block_bytes
              ∙ slice-region_gate raw spec pair_id pair fit),
          binds_here sha256 start right,
          ==_same (fwin_checksum here) spec.manifest_checksum right,
          solved_here,
          same_bytes (le 4 value) (slice here spec.fixup_offset 4) (sym slice-here_fixup),
          ==_differ (fwin_checksum (staged raw spec pair_id pair fit value)) spec.manifest_checksum
              (staged-differs raw spec pair_id pair fit value right),
          is_text_same (hex_word (fwin_checksum (staged raw spec pair_id pair fit value)))
              (hex_word (fwin_checksum (staged raw spec pair_id pair fit value))) refl,
          gate_rank raw spec pair_id pair fit value,
        )
        refl
