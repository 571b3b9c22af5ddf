-- ===== src/Updater/Target/Validation.antt =====
-- `derive_pair_id` and `validate_target_region` of kb7-updater-plan.py. The digests of hashlib are
-- parameters: `digest` for `hashlib.sha256(data).digest()`, `sha256` for its text.
use kb.Base.{
  ℕ, ◌+◌, ◌-◌, Bool, ◌&&◌, ◌||◌, not, Option, none, some, [], ◌∷◌, ◌++◌, ◌==◌, length, take,
  replicate, slice, Bytes, le, eq_bytes, crc32, Result, ok, err,
}
use kb.Updater.Regions.{
  PlanFault, plan_error, block_bytes, Core, core0, core1, RegionSpec, envelope_length,
}
use kb.Updater.Operations.{require, erased, store_slice}
use kb.Updater.Sequence.{◌>>=◌, fwin_checksum}
use kb.Updater.Patch.{crc_patch, crc_word_rank}
use kb.Updater.Target.{
  pair_id_bytes, unpack_pair, is_pair_marker, hex, hex_word, text, integer, RegionEntry,
  TargetRegion, is_text, is_number, is_int, gate_block, chunk_start, chunk_of,
}

-- `PAIR_DOMAIN`, the text "KB7 paired replacement firmware v1" and a zero byte.
abbrev pub pair_domain : Bytes
pair_domain =
    75 ∷ 66 ∷ 55 ∷ 32 ∷ 112 ∷ 97 ∷ 105 ∷ 114 ∷ 101 ∷ 100 ∷ 32 ∷ 114 ∷ 101 ∷ 112 ∷ 108 ∷ 97 ∷ 99
    ∷ 101 ∷ 109 ∷ 101 ∷ 110 ∷ 116 ∷ 32 ∷ 102 ∷ 105 ∷ 114 ∷ 109 ∷ 119 ∷ 97 ∷ 114 ∷ 101 ∷ 32 ∷ 118
    ∷ 49 ∷ 0 ∷ []

-- The two identifiers that no pair has.
abbrev pub is_reserved : Bytes → Bool
is_reserved pair_id =
    eq_bytes pair_id (replicate pair_id_bytes 0) || eq_bytes pair_id (erased pair_id_bytes)

unfoldable pub derive_pair_id : (Bytes → Bytes) → Bytes → Bytes → Result PlanFault Bytes
derive_pair_id digest raw0 raw1 =
    let result = take pair_id_bytes (digest (pair_domain ++ (raw0 ++ raw1))) in
    require (not (is_reserved result)) (ok result)

-- The `and` over the entries of the metadata.
abbrev pub binds_target : (Bytes → Bytes) → Bytes → RegionSpec → RegionEntry → Bool
binds_target sha256 target spec metadata =
    is_text metadata.fixup_offset_text (hex_word spec.fixup_offset)
    && is_text metadata.entry_start (hex_word spec.start)
    && is_int metadata.entry_length
    && is_number metadata.entry_length spec.region_length
    && is_int metadata.entry_envelope_length
    && is_number metadata.entry_envelope_length (envelope_length spec)
    && is_text metadata.fixup_bytes (hex (slice target spec.fixup_offset 4))
    && is_number metadata.fixup_rank 32
    && is_text metadata.gate_offset_text (hex_word spec.gate_offset)
    && is_text metadata.gate_final_bytes (hex (le 4 0))
    && is_number metadata.gate_rank 32
    && is_text metadata.target_checksum (hex_word spec.manifest_checksum)
    && is_text metadata.target_sha256 (sha256 target)

-- `validate_target_region` from the solver on.
unfoldable pub validate_transforms :
    Bytes → RegionSpec → RegionEntry → Bytes → Bytes × ℕ → Result PlanFault Bytes
validate_transforms target spec metadata staged (solved_patch, solved_rank) =
    require (solved_rank == 32 && eq_bytes solved_patch (slice target spec.fixup_offset 4)) (
      require
        (not (fwin_checksum staged == spec.manifest_checksum)
          && is_text metadata.staged_checksum (hex_word (fwin_checksum staged)))
        (crc_word_rank (chunk_of target spec spec.gate_offset)
            (spec.gate_offset - chunk_start spec.gate_offset)
          >>= λ rank. require (rank == 32) (ok staged)))

-- `metadata` is `none` where it is not a dictionary.
unfoldable pub validate_target_region :
    (Bytes → Bytes) → Bytes → RegionSpec → Bytes → Option RegionEntry → Result PlanFault Bytes
validate_target_region sha256 target spec pair_id none = err plan_error
validate_target_region sha256 target spec pair_id (some metadata) =
    let marker = unpack_pair target spec.pair_offset in
    let fixup_chunk = chunk_of target spec spec.fixup_offset in
    let staged = store_slice target spec.gate_offset (spec.gate_offset + 4) (erased 4) in
    require (length target == spec.region_length) (
      require (length pair_id == pair_id_bytes && not (is_reserved pair_id)) (
        require (is_pair_marker marker spec && eq_bytes marker.identifier pair_id) (
          require
            (eq_bytes (slice target (spec.fixup_offset + 4) (block_bytes - 4))
              (erased (block_bytes - 4)))
            (require (eq_bytes (slice target spec.gate_offset block_bytes) gate_block) (
              require (binds_target sha256 target spec metadata) (
                require (fwin_checksum target == spec.manifest_checksum) (
                  crc_patch fixup_chunk (spec.fixup_offset - chunk_start spec.fixup_offset)
                    (crc32 fixup_chunk)
                  >>= validate_transforms target spec metadata staged)))))))

-- The texts of the two starts in the descriptor, "0x00011000" and "0x00021000".
unfoldable pub start_text : Core → Bytes
start_text core0 = 48 ∷ 120 ∷ 48 ∷ 48 ∷ 48 ∷ 49 ∷ 49 ∷ 48 ∷ 48 ∷ 48 ∷ []
start_text core1 = 48 ∷ 120 ∷ 48 ∷ 48 ∷ 48 ∷ 50 ∷ 49 ∷ 48 ∷ 48 ∷ 48 ∷ []

-- The entry of a region in the descriptor: its layout, its digest and `**balance`.
abbrev pub region_entry : (Bytes → Bytes) → RegionSpec → TargetRegion → RegionEntry
region_entry sha256 spec built = record {
  entry_start = some (text (start_text spec.name));
  entry_length = some (integer spec.region_length);
  entry_envelope_length = some (integer (envelope_length spec));
  target_sha256 = some (text (sha256 built.target));
  fixup_offset_text = built.balance.fixup_offset_text;
  fixup_bytes = built.balance.fixup_bytes;
  fixup_rank = built.balance.fixup_rank;
  gate_offset_text = built.balance.gate_offset_text;
  gate_final_bytes = built.balance.gate_final_bytes;
  gate_rank = built.balance.gate_rank;
  staged_checksum = built.balance.staged_checksum;
  target_checksum = built.balance.target_checksum;
}
