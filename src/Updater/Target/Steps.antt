-- ===== src/Updater/Target/Steps.antt =====
-- The steps of `build_target_region` on a region whose marker and geometry are right.
use kb.Base.{
  ℕ, ◌+◌, ◌-◌, ◌%◌, ◌≤◌, ◌≡◌, refl, sym, ap, ◌∙◌, ◌≢◌, inl, inr, true, false, ◌++◌, arith, leb,
  ◌==◌, leb→le, ==_refl, Bool-cases, length, replicate, length-append, length-replicate, slice,
  Bytes, le, eq_bytes, eq_bytes_sound, eq_bytes_refl, ok,
}
use kb.Updater.Regions.{block_bytes, RegionSpec}
use kb.Updater.Operations.{erased, store_slice}
use kb.Updater.Applied.{require-eq-ok}
use kb.Updater.Sequence.{fwin_checksum}
use kb.Updater.Patch.{crc_word_rank}
use kb.Updater.Patch.Total.{crc_word_rank_full}
use kb.Updater.Target.{
  pair_bytes, pair_id_bytes, validate_pair_placeholder, gate_block, marked_region, chunk_start,
  chunk_of, TargetRegion, balance_of, finish_region, is_geometry,
}
use kb.Updater.Target.Stores.{
  length-store, slice-store_outside, slice-store_same, slice-store_within, slice-padded,
}
use kb.Updater.Target.Chunks.{chunk_size}
use kb.Updater.Target.Balanced.{
  store_same, chunk_of_lem, word_in_slice, fwin_checksum-store_injective,
}

pub ==_differ : (a b : ℕ) → a ≢ b → (a == b) ≡ false
==_differ a b differ = ground arith

-- What the geometry and the marker say of the numbers.
pub record Fits (raw : Bytes) (spec : RegionSpec) : Type 0 where
  pub pair_fits : spec.pair_offset + pair_bytes ≤ length raw
  pub raw_fits : length raw ≤ spec.fixup_offset
  pub fixup_aligned : spec.fixup_offset % block_bytes ≡ 0
  pub gate_aligned : spec.gate_offset % block_bytes ≡ 0
  pub fixup_before : spec.fixup_offset + block_bytes ≤ spec.gate_offset
  pub gate_fits : spec.gate_offset + block_bytes ≤ spec.region_length

pub is_geometry-Fits :
    (raw : Bytes) (spec : RegionSpec)
    → validate_pair_placeholder raw spec ≡ ok tt
    → is_geometry raw spec ≡ true
    → spec.gate_offset + block_bytes ≤ spec.region_length
    → Fits raw spec
unfolding validate_pair_placeholder
is_geometry-Fits raw spec marker geometry gate = record {
  pair_fits =
      leb→le (spec.pair_offset + pair_bytes) (length raw)
        (require-eq-ok (leb (spec.pair_offset + pair_bytes) (length raw)) _ tt marker).0;
  raw_fits = ground arith;
  fixup_aligned = ground arith;
  gate_aligned = ground arith;
  fixup_before = ground arith;
  gate_fits = gate;
}

-- The steps of the build on such a region.
module _ (raw : Bytes) (spec : RegionSpec) (pair_id : Bytes) (pair : length pair_id ≡ pair_id_bytes)
    (fit : Fits raw spec) where
  unfoldable pub padded : Bytes
  padded = raw ++ erased (spec.region_length - length raw)

  unfoldable pub id_offset : ℕ
  id_offset = spec.pair_offset + pair_bytes - pair_id_bytes

  pub length-padded : length padded ≡ spec.region_length
  unfolding padded erased
  length-padded = omega (
    arith,
    fit.raw_fits,
    fit.fixup_before,
    fit.gate_fits,
    length-append raw (replicate (spec.region_length - length raw) 255),
    length-replicate {A = ℕ} (spec.region_length - length raw) 255,
  )

  pub id_fits : id_offset + pair_id_bytes ≤ length padded
  unfolding id_offset
  id_fits =
      omega (arith, length-padded, fit.pair_fits, fit.raw_fits, fit.fixup_before, fit.gate_fits)

  unfoldable pub marked : Bytes
  marked = marked_region raw spec pair_id

  pub length-marked : length marked ≡ spec.region_length
  unfolding marked padded id_offset
  length-marked = length-store padded id_offset pair_id_bytes pair_id pair id_fits ∙ length-padded

  -- The blocks behind the raw image are erased.
  pub slice-marked :
      (i n : ℕ) → length raw ≤ i → i + n ≤ spec.region_length → slice marked i n ≡ erased n
  unfolding marked padded id_offset
  slice-marked i n past fits =
      slice-store_outside padded id_offset pair_id_bytes pair_id pair id_fits i n
        (inr (omega (arith, fit.pair_fits)))
      ∙ slice-padded raw (spec.region_length - length raw) i n past
          (omega (arith, fit.raw_fits, fit.fixup_before, fit.gate_fits))

  unfoldable pub region : Bytes
  region = store_slice marked spec.gate_offset (spec.gate_offset + 4) (le 4 0)

  pub gate_room : spec.gate_offset + 4 ≤ length marked
  gate_room = omega (arith, length-marked, fit.gate_fits)

  pub length-region : length region ≡ spec.region_length
  unfolding region
  length-region = length-store marked spec.gate_offset 4 (le 4 0) refl gate_room ∙ length-marked

  pub slice-region_fixup : (n : ℕ) → n ≤ block_bytes → slice region spec.fixup_offset n ≡ erased n
  unfolding region
  slice-region_fixup n small =
      slice-store_outside marked spec.gate_offset 4 (le 4 0) refl gate_room spec.fixup_offset n
        (inl (omega (arith, fit.fixup_before)))
      ∙ slice-marked spec.fixup_offset n fit.raw_fits
          (omega (arith, fit.fixup_before, fit.gate_fits))

  pub slice-region_gate : slice region spec.gate_offset block_bytes ≡ gate_block
  unfolding region erased
  slice-region_gate =
      slice-store_within marked spec.gate_offset 4 (le 4 0) spec.gate_offset block_bytes refl
        (omega (arith, length-marked, fit.gate_fits)) (omega arith) (omega arith)
      ∙ ap (λ (n : ℕ). store_slice (slice marked spec.gate_offset block_bytes) n (n + 4) (le 4 0))
          (nothing spec.gate_offset)
      ∙ ap (λ (bs : Bytes). store_slice bs 0 4 (le 4 0))
          (slice-marked spec.gate_offset block_bytes (omega (arith, fit.raw_fits, fit.fixup_before))
            fit.gate_fits)
    where
      nothing : (n : ℕ) → n - n ≡ 0
      nothing n = omega arith

  unfoldable pub target : ℕ → Bytes
  target value = store_slice region spec.fixup_offset (spec.fixup_offset + 4) (le 4 value)

  unfoldable pub staged : ℕ → Bytes
  staged value = store_slice (target value) spec.gate_offset (spec.gate_offset + 4) (erased 4)

  pub fixup_room : spec.fixup_offset + 4 ≤ length region
  fixup_room = omega (arith, length-region, fit.fixup_before, fit.gate_fits)

  pub length-target : (value : ℕ) → length (target value) ≡ spec.region_length
  unfolding target
  length-target value =
      length-store region spec.fixup_offset 4 (le 4 value) refl fixup_room ∙ length-region

  target_gate_room : (value : ℕ) → spec.gate_offset + 4 ≤ length (target value)
  target_gate_room value = omega (arith, length-target value, fit.gate_fits)

  pub slice-target_gate :
      (value n : ℕ) → slice (target value) spec.gate_offset n ≡ slice region spec.gate_offset n
  unfolding target
  slice-target_gate value n =
      slice-store_outside region spec.fixup_offset 4 (le 4 value) refl fixup_room spec.gate_offset n
        (inr (omega (arith, fit.fixup_before)))

  -- Clearing the gate of the target changes nothing.
  pub target_cleared :
      (value : ℕ)
      → store_slice (target value) spec.gate_offset (spec.gate_offset + 4) (le 4 0) ≡ target value
  unfolding region
  target_cleared value =
      ap (store_slice (target value) spec.gate_offset (spec.gate_offset + 4)) (sym cleared)
      ∙ store_same (target value) spec.gate_offset 4
    where
      cleared : slice (target value) spec.gate_offset 4 ≡ le 4 0
      cleared =
          slice-target_gate value 4
          ∙ slice-store_same marked spec.gate_offset 4 (le 4 0) refl gate_room

  -- The staged region has another checksum.
  pub staged-differs :
      (value : ℕ)
      → fwin_checksum (target value) ≡ spec.manifest_checksum
      → fwin_checksum (staged value) ≢ spec.manifest_checksum
  unfolding staged erased
  staged-differs value right wrong = absurd (
      different (
        fwin_checksum-store_injective (target value) spec.gate_offset 0xffffffff 0
          (target_gate_room value) fit.gate_aligned (omega arith) (omega arith)
          (wrong ∙ sym right ∙ ap fwin_checksum (sym (target_cleared value)))))
    where
      different : ◌≡◌ {A = ℕ} 0xffffffff 0 → ⊥
      different e = omega (arith, e)

  pub gate_rank :
      (value : ℕ)
      → crc_word_rank
          (chunk_of (target value) spec spec.gate_offset)
          (spec.gate_offset - chunk_start spec.gate_offset)
        ≡ ok 32
  gate_rank value =
      ap (λ (bs : Bytes). crc_word_rank bs (spec.gate_offset - chunk_start spec.gate_offset))
        (chunk_of_lem (target value) spec spec.gate_offset (length-target value))
      ∙ crc_word_rank_full
          (slice (target value) (chunk_start spec.gate_offset)
            (chunk_size (chunk_start spec.gate_offset) (length (target value))))
          (spec.gate_offset - chunk_start spec.gate_offset)
          (word_in_slice (target value) spec.gate_offset (target_gate_room value) fit.gate_aligned)

  -- A correction that is erased would have balanced the region before.
  not_erased :
      (value : ℕ)
      → fwin_checksum region ≢ spec.manifest_checksum
      → fwin_checksum (target value) ≡ spec.manifest_checksum
      → eq_bytes (le 4 value) (erased 4) ≡ false
  unfolding target
  not_erased value unbalanced right = elim (Bool-cases (eq_bytes (le 4 value) (erased 4))) [
    | inl same ↦ absurd (
        unbalanced (
          ap fwin_checksum (
            sym (store_same region spec.fixup_offset 4)
            ∙ ap (store_slice region spec.fixup_offset (spec.fixup_offset + 4)) (
                slice-region_fixup 4 (omega arith)
                ∙ sym (eq_bytes_sound (le 4 value) (erased 4) same)))
          ∙ right))
    | inr differ ↦ differ
  ]

  unfoldable pub result : ℕ → TargetRegion
  result value = record {
    target = target value;
    staged = staged value;
    balance = balance_of spec (le 4 value) 32 32 (target value) (staged value);
  }

  pub finish_region-ok :
      (value : ℕ)
      → fwin_checksum region ≢ spec.manifest_checksum
      → fwin_checksum (target value) ≡ spec.manifest_checksum
      → finish_region spec region (le 4 value, 32) ≡ ok (result value)
  unfolding finish_region result target staged
  finish_region-ok value unbalanced right =
      rw
        (
          not_erased value unbalanced right,
          right,
          ==_refl spec.manifest_checksum,
          ==_differ (fwin_checksum (staged value)) spec.manifest_checksum
              (staged-differs value right),
          gate_rank value,
          block,
        )
        refl
    where
      block : eq_bytes (slice (target value) spec.gate_offset block_bytes) gate_block ≡ true
      block =
          ap (λ (bs : Bytes). eq_bytes bs gate_block)
            (slice-target_gate value block_bytes ∙ slice-region_gate)
          ∙ eq_bytes_refl gate_block
