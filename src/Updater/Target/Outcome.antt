-- ===== src/Updater/Target/Outcome.antt =====
-- How `build_target_region` ends on a region whose marker and geometry are right.
use kb.Base.{
  ℕ, ◌+◌, ◌-◌, ◌^◌, ◌≤◌, ◌<◌, ◌≡◌, refl, ap, ◌∙◌, ◌≢◌, true, arith, ◌==◌, ==_iff, length, slice,
  Bytes, le, eq_bytes, eq_bytes_refl, ok,
}
use kb.Updater.Regions.{block_bytes, RegionSpec}
use kb.Updater.Operations.{erased}
use kb.Updater.Sequence.{fwin_checksum}
use kb.Updater.Patch.{crc_patch}
use kb.Updater.Patch.Total.{crc_patch_total}
use kb.Updater.Target.{
  pair_id_bytes, validate_pair_placeholder, marked_region, chunk_start, chunk_of, wanted_chunk,
  is_geometry, build_target_region,
}
use kb.Updater.Target.Balanced.{word_in_chunk_of, fwin_checksum-wanted}
use kb.Updater.Target.Steps.{
  Fits, marked, slice-marked, region, length-region, target, result, finish_region-ok, fixup_room,
}

module _ (raw : Bytes) (spec : RegionSpec) (pair_id : Bytes) (pair : length pair_id ≡ pair_id_bytes)
    (fit : Fits raw spec) (small : spec.manifest_checksum < 2 ^ 32) where
  -- The correction that the solver finds.
  pub corrected :
      (value : ℕ) × (crc_patch
          (chunk_of (region raw spec pair_id pair fit) spec spec.fixup_offset)
          (spec.fixup_offset - chunk_start spec.fixup_offset)
          (wanted_chunk (region raw spec pair_id pair fit) spec)
        ≡ ok (le 4 value, 32))
      × (fwin_checksum (target raw spec pair_id pair fit value) ≡ spec.manifest_checksum)
      × (value < 2 ^ 32)
  unfolding target
  corrected =
      let here = region raw spec pair_id pair fit in
      let same = length-region raw spec pair_id pair fit in
      let (value, found, right, word) =
        crc_patch_total (chunk_of here spec spec.fixup_offset)
          (spec.fixup_offset - chunk_start spec.fixup_offset)
          (word_in_chunk_of here spec spec.fixup_offset same (fixup_room raw spec pair_id pair fit)
            fit.fixup_aligned)
          (wanted_chunk here spec) (omega arith) in
      (
        value,
        found,
        fwin_checksum-wanted here spec (le 4 value) same refl
            (omega (arith, fit.fixup_before, fit.gate_fits)) fit.fixup_aligned small right,
        word,
      )

  pub build_target_region-ok :
      validate_pair_placeholder raw spec ≡ ok tt
      → is_geometry raw spec ≡ true
      → fwin_checksum (region raw spec pair_id pair fit) ≢ spec.manifest_checksum
      → build_target_region raw spec pair_id ≡ ok (result raw spec pair_id pair fit corrected.0)
  unfolding build_target_region region marked
  build_target_region-ok marker geometry unbalanced =
      let (value, found, right, word) = corrected in
      rw
        (
          rw_true (length pair_id) pair_id_bytes pair,
          marker,
          geometry,
          erased_block spec.fixup_offset fit.raw_fits
              (omega (arith, fit.fixup_before, fit.gate_fits)),
          erased_block spec.gate_offset (omega (arith, fit.raw_fits, fit.fixup_before))
              fit.gate_fits,
          found,
        )
        (finish_region-ok raw spec pair_id pair fit value unbalanced right)
    where
      rw_true : (a b : ℕ) → a ≡ b → (a == b) ≡ true
      rw_true a b e = (==_iff a b).1 e

      erased_block :
          (i : ℕ)
          → length raw ≤ i
          → i + block_bytes ≤ spec.region_length
          → eq_bytes (slice (marked_region raw spec pair_id) i block_bytes) (erased block_bytes)
            ≡ true
      erased_block i past fits =
          ap (λ (bs : Bytes). eq_bytes bs (erased block_bytes))
            (slice-marked raw spec pair_id pair fit i block_bytes past fits)
          ∙ eq_bytes_refl (erased block_bytes)
