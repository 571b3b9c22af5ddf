-- ===== src/Updater/Target/Promises.antt =====
-- What `build_target_region` promises: its region balances with a cleared gate only, and
-- `validate_target_region` accepts it.
use kb.Base.{
  ℕ, ◌+◌, ◌^◌, ◌≤◌, ◌<◌, ◌≡◌, sym, ap, ◌∙◌, ◌≢◌, true, false, some, arith, length, Bytes, le, ok,
}
use kb.Updater.Regions.{block_bytes, RegionSpec}
use kb.Updater.Operations.{store_slice}
use kb.Updater.Sequence.{fwin_checksum}
use kb.Updater.Target.{
  pair_id_bytes, validate_pair_placeholder, hex_word, marked_region, TargetRegion, is_geometry,
  build_target_region,
}
use kb.Updater.Target.Validation.{is_reserved, validate_target_region, start_text, region_entry}
use kb.Updater.Target.Balanced.{fwin_checksum-store_injective}
use kb.Updater.Target.Steps.{
  is_geometry-Fits, marked, region, target, target_cleared, result, length-target,
}
use kb.Updater.Target.Outcome.{corrected, build_target_region-ok}
use kb.Updater.Target.Validated.{result_validates}

-- A raw image with a right marker and geometry, whose region would not balance with an erased
-- correction, is built: the target has the length and the checksum that the manifest asks for, and
-- any other word than 0 at the gate takes the checksum away.
pub build_target_region_balances :
    (raw : Bytes) (spec : RegionSpec) (pair_id : Bytes) (gate_word : ℕ)
    → length pair_id ≡ pair_id_bytes
    → validate_pair_placeholder raw spec ≡ ok tt
    → is_geometry raw spec ≡ true
    → spec.gate_offset + block_bytes ≤ spec.region_length
    → spec.manifest_checksum < 2 ^ 32
    → fwin_checksum (
        store_slice
          (marked_region raw spec pair_id)
          spec.gate_offset
          (spec.gate_offset + 4)
          (le 4 0))
      ≢ spec.manifest_checksum
    → gate_word < 2 ^ 32
    → gate_word ≢ 0
    → (built : TargetRegion) × (build_target_region raw spec pair_id ≡ ok built)
      × (length built.target ≡ spec.region_length)
      × (fwin_checksum built.target ≡ spec.manifest_checksum)
      × (fwin_checksum
            (store_slice built.target spec.gate_offset (spec.gate_offset + 4) (le 4 gate_word))
          ≢ spec.manifest_checksum)
unfolding result region marked
build_target_region_balances raw spec pair_id gate_word pair marker geometry gate small unbalanced
      below set_gate =
    let fit = is_geometry-Fits raw spec marker geometry gate in
    let (value, found, right, word) = corrected raw spec pair_id pair fit small in
    (
      result raw spec pair_id pair fit value,
      build_target_region-ok raw spec pair_id pair fit small marker geometry unbalanced,
      length-target raw spec pair_id pair fit value,
      right,
      λ e. set_gate (
          fwin_checksum-store_injective (target raw spec pair_id pair fit value) spec.gate_offset
            gate_word 0
            (omega (arith, length-target raw spec pair_id pair fit value, fit.gate_fits))
            fit.gate_aligned below (omega arith)
            (e
              ∙ sym right
              ∙ ap fwin_checksum (sym (target_cleared raw spec pair_id pair fit value)))),
    )

-- What `build_target_region` makes of such an image, for a pair identifier that is not reserved,
-- `validate_target_region` accepts with the entry that the descriptor has of it, whatever the
-- digest, and returns the staged image of the build.
pub build_target_region_verified :
    (sha256 : Bytes → Bytes) (raw : Bytes) (spec : RegionSpec) (pair_id : Bytes)
    → length pair_id ≡ pair_id_bytes
    → is_reserved pair_id ≡ false
    → validate_pair_placeholder raw spec ≡ ok tt
    → is_geometry raw spec ≡ true
    → spec.gate_offset + block_bytes ≤ spec.region_length
    → spec.manifest_checksum < 2 ^ 32
    → start_text spec.name ≡ hex_word spec.start
    → fwin_checksum (
        store_slice
          (marked_region raw spec pair_id)
          spec.gate_offset
          (spec.gate_offset + 4)
          (le 4 0))
      ≢ spec.manifest_checksum
    → (built : TargetRegion) × (build_target_region raw spec pair_id ≡ ok built)
      × (validate_target_region sha256 built.target spec pair_id
            (some (region_entry sha256 spec built))
          ≡ ok built.staged)
unfolding result region marked
build_target_region_verified sha256 raw spec pair_id pair free marker geometry gate small start
      unbalanced =
    let fit = is_geometry-Fits raw spec marker geometry gate in
    let (value, found, right, word) = corrected raw spec pair_id pair fit small in
    (
      result raw spec pair_id pair fit value,
      build_target_region-ok raw spec pair_id pair fit small marker geometry unbalanced,
      result_validates raw spec pair_id pair fit value word sha256 start free marker right,
    )
