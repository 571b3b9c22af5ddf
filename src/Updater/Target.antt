-- ===== src/Updater/Target.antt =====
-- The balanced region of a core in kb7-updater-plan.py: `build_target_region` and
-- `validate_target_region`, with the pair marker that they place and read.
use kb.Base.{
  ℕ, zero, suc, ◌+◌, ◌-◌, ◌*◌, ◌/◌, ◌%◌, ◌^◌, ◌≤◌, ◌<◌, min, bit_and, bit_or, bit_xor, ◌≡◌, refl,
  sym, ap, ap₂, subst, ◌∙◌, ◌≢◌, ◌↔◌, ◌⊎◌, inl, inr, Bool, true, false, ◌&&◌, ◌||◌, not, Option,
  none, some, List, [], ◌∷◌, ◌++◌, map, append_assoc, append-nil, arith, ltb, leb, ◌==◌, ◌!=◌,
  if◌then◌else◌, ltb→lt, lt→ltb, leb→le, le→leb, ==_iff, ==_refl, tests, Bool-cases, Option-cases,
  and-eq-true, length, get_elem?, set, take, drop, replicate, length-append, length-take,
  length-drop, length-replicate, length-set, take-append-drop, take-all, drop-all, take-append,
  drop-append, take-append_le, drop-append_le, drop-drop, drop-nil, take-nil, replicate-append,
  replicate_split, take-append-take, slice, splice, length-slice, slice-append,
  get_elem?-append_middle, set-append_middle, Bytes, IsBytes, le, le_value, ljust, any, eq_bytes,
  eq_bytes_sound, eq_bytes_refl, IsBytes-append, IsBytes-take, IsBytes-drop, IsBytes-replicate,
  IsBytes-le, length-le, le-le_value, le_value-lt, length-ljust, IsBytes-ljust, ljust-full,
  take-ljust, any-drop-ljust, bit_or-full, bit_and-full, bit_and_comm, bit_and_self, bit_and_absorb,
  bit_and_assoc, bit_and-le, bit_or_self, crc32, is_utf8, crc32-lt, bit_xor_longer,
  bit_xor_injective, digit_split, scale-bit_xor, bit_xor-eq-zero, crc32_word_change, rounds,
  rounds-bit_xor, rounds-eq-zero, rounds-lt, bit_xor-low, bit_xor-half, zero-bit_xor, by_digits,
  bit_xor_comm, bit_xor-zero, bit_xor_self, bit_xor_assoc, bit_xor_cancel, bit_xor_swap, bit_xor-lt,
  bit_xor_same_length, Result, ok, err, Action, pure, raise, lift, modify, guard-eq-ok, then-eq-ok,
}
use kb.Updater.Regions.{
  PlanFault, plan_error, block_bytes, Core, core0, core1, RegionSpec, envelope_length, core1_start,
  core0_start,
}
use kb.Updater.Operations.{require, erased, store_slice}
use kb.Updater.Sequence.{◌>>=◌, fwin_checksum}
use kb.Updater.Patch.{crc_patch, crc_word_rank}
pub mod Validation
pub mod Validated
pub mod Stores
pub mod Chunks
pub mod Balanced
pub mod Steps
pub mod Outcome
pub mod Promises
mod Tests

abbrev pub pair_bytes : ℕ
pair_bytes = 32

abbrev pub pair_id_bytes : ℕ
pair_id_bytes = 16

-- The fields of `PAIR_STRUCT`, `"<IHHII16s"`.
pub record PairMarker : Type 0 where
  pub magic : ℕ
  pub version : ℕ
  pub size : ℕ
  pub role : ℕ
  pub abi : ℕ
  pub identifier : Bytes

-- `PAIR_STRUCT.unpack_from(image, offset)`, inside the image.
abbrev pub unpack_pair : Bytes → ℕ → PairMarker
unpack_pair image offset = record {
  magic = le_value (slice image offset 4);
  version = le_value (slice image (offset + 4) 2);
  size = le_value (slice image (offset + 6) 2);
  role = le_value (slice image (offset + 8) 4);
  abi = le_value (slice image (offset + 12) 4);
  identifier = slice image (offset + 16) 16;
}

-- The comparison of the first five fields.
abbrev pub is_pair_marker : PairMarker → RegionSpec → Bool
is_pair_marker marker spec =
    (marker.magic == 0x5037424b)
    && (marker.version == 1)
    && (marker.size == pair_bytes)
    && (marker.role == spec.role)
    && (marker.abi == 2)

unfoldable pub validate_pair_placeholder : Bytes → RegionSpec → Result PlanFault (Unit {0})
validate_pair_placeholder raw spec = require (leb (spec.pair_offset + pair_bytes) (length raw)) (
    let marker = unpack_pair raw spec.pair_offset in
    require (is_pair_marker marker spec)
      (require (eq_bytes marker.identifier (erased pair_id_bytes)) (ok tt)))

-- `bytes.hex()`
abbrev pub hex_digit : ℕ → ℕ
hex_digit n = if ltb n 10 then 48 + n else 87 + n

unfoldable pub hex : Bytes → Bytes
hex [] = []
hex (x ∷ xs) = hex_digit (x / 16) ∷ hex_digit (x % 16) ∷ hex xs

-- `f"0x{n:08x}"`, for a number of 32 bits.
unfoldable pub hex_word : ℕ → Bytes
unfolding hex
hex_word n = 48 ∷ 120 ∷ hex (n / 2 ^ 24 ∷ n / 2 ^ 16 % 256 ∷ n / 2 ^ 8 % 256 ∷ n % 256 ∷ [])

-- A value of the descriptor: a text, an integer, a float of integer value, or anything else.
pub data Value : Type 0 where
  text : Bytes → Value
  integer float : ℕ → Value
  other_value : Value

-- An entry of `regions`, by the keys that are read of it.
pub record RegionEntry : Type 0 where
  pub entry_start : Option Value
  pub entry_length : Option Value
  pub entry_envelope_length : Option Value
  pub target_sha256 : Option Value
  pub fixup_offset_text : Option Value
  pub fixup_bytes : Option Value
  pub fixup_rank : Option Value
  pub gate_offset_text : Option Value
  pub gate_final_bytes : Option Value
  pub gate_rank : Option Value
  pub staged_checksum : Option Value
  pub target_checksum : Option Value

-- `metadata.get(key) == text`
unfoldable pub is_text : Option Value → Bytes → Bool
is_text (some (text t)) expected = eq_bytes t expected
is_text (some (integer n)) expected = false
is_text (some (float n)) expected = false
is_text (some other_value) expected = false
is_text none expected = false

-- `metadata.get(key) == number`
unfoldable pub is_number : Option Value → ℕ → Bool
is_number (some (integer n)) expected = n == expected
is_number (some (float n)) expected = n == expected
is_number (some (text t)) expected = false
is_number (some other_value) expected = false
is_number none expected = false

-- `type(metadata.get(key)) is int`
unfoldable pub is_int : Option Value → Bool
is_int (some (integer n)) = true
is_int (some (float n)) = false
is_int (some (text t)) = false
is_int (some other_value) = false
is_int none = false

-- `b"\0" * 4 + b"\xff" * (BLOCK_BYTES - 4)`
abbrev pub gate_block : Bytes
gate_block = le 4 0 ++ erased (block_bytes - 4)

-- The region with its pair identifier in place.
abbrev pub marked_region : Bytes → RegionSpec → Bytes → Bytes
marked_region raw spec pair_id =
    let pair_id_offset = spec.pair_offset + pair_bytes - pair_id_bytes in
    store_slice (raw ++ erased (spec.region_length - length raw)) pair_id_offset
      (pair_id_offset + pair_id_bytes) pair_id

-- The start of the chunk of an offset, and its end in a region.
abbrev pub chunk_start : ℕ → ℕ
chunk_start offset = offset / 0x10000 * 0x10000

abbrev pub chunk_of : Bytes → RegionSpec → ℕ → Bytes
chunk_of region spec offset =
    let end = min (chunk_start offset + 0x10000) spec.region_length in
    slice region (chunk_start offset) (end - chunk_start offset)

-- `other_sum` before its mask, with the rounds left.
abbrev pub other_sum : ℕ → ℕ → ℕ → ℕ → Bytes → ℕ
other_sum zero offset skipped limit region = 0
other_sum (suc rounds) offset skipped limit region =
    (if offset == skipped
      then 0
      else crc32 (slice region offset (min (offset + 0x10000) limit - offset)))
    + other_sum rounds (offset + 0x10000) skipped limit region

-- `wanted_chunk`
abbrev pub wanted_chunk : Bytes → RegionSpec → ℕ
wanted_chunk region spec =
    let others =
      other_sum ((spec.region_length + 0xffff) / 0x10000) 0 (chunk_start spec.fixup_offset)
        spec.region_length region
      % 2 ^ 32 in
    (spec.manifest_checksum + 2 ^ 32 - others) % 2 ^ 32

-- The target, the staged image and the metadata.
pub record TargetRegion : Type 0 where
  pub target : Bytes
  pub staged : Bytes
  pub balance : RegionEntry

abbrev pub balance_of : RegionSpec → Bytes → ℕ → ℕ → Bytes → Bytes → RegionEntry
balance_of spec patch patch_rank gate_rank target staged = record {
  entry_start = none;
  entry_length = none;
  entry_envelope_length = none;
  target_sha256 = none;
  fixup_offset_text = some (text (hex_word spec.fixup_offset));
  fixup_bytes = some (text (hex patch));
  fixup_rank = some (integer patch_rank);
  gate_offset_text = some (text (hex_word spec.gate_offset));
  gate_final_bytes = some (text (hex (le 4 0)));
  gate_rank = some (integer gate_rank);
  staged_checksum = some (text (hex_word (fwin_checksum staged)));
  target_checksum = some (text (hex_word (fwin_checksum target)));
}

-- What `build_target_region` does with the correction, from the store of `patch` on.
unfoldable pub finish_region : RegionSpec → Bytes → Bytes × ℕ → Result PlanFault TargetRegion
finish_region spec region (patch, patch_rank) =
    let target = store_slice region spec.fixup_offset (spec.fixup_offset + 4) patch in
    let staged = store_slice target spec.gate_offset (spec.gate_offset + 4) (erased 4) in
    require (not (eq_bytes patch (erased 4))) (
      require (fwin_checksum target == spec.manifest_checksum) (
        require (not (fwin_checksum staged == spec.manifest_checksum)) (
          crc_word_rank (chunk_of target spec spec.gate_offset)
            (spec.gate_offset - chunk_start spec.gate_offset)
          >>= λ gate_rank. require (patch_rank == 32 && gate_rank == 32) (
              require (eq_bytes (slice target spec.gate_offset block_bytes) gate_block) (
                ok (record {
                  target = target;
                  staged = staged;
                  balance = balance_of spec patch patch_rank gate_rank target staged;
                }))))))

-- The geometry that `build_target_region` requires.
abbrev pub is_geometry : Bytes → RegionSpec → Bool
is_geometry raw spec =
    leb (length raw) spec.fixup_offset
    && (spec.fixup_offset % block_bytes == 0)
    && (spec.gate_offset % block_bytes == 0)
    && leb (spec.fixup_offset + block_bytes) spec.gate_offset

unfoldable pub build_target_region : Bytes → RegionSpec → Bytes → Result PlanFault TargetRegion
build_target_region raw spec pair_id = require (length pair_id == pair_id_bytes) (
    validate_pair_placeholder raw spec >>= λ _. require (is_geometry raw spec) (
      let marked = marked_region raw spec pair_id in
      require (eq_bytes (slice marked spec.fixup_offset block_bytes) (erased block_bytes)) (
        require (eq_bytes (slice marked spec.gate_offset block_bytes) (erased block_bytes)) (
          let region = store_slice marked spec.gate_offset (spec.gate_offset + 4) (le 4 0) in
          crc_patch (chunk_of region spec spec.fixup_offset)
            (spec.fixup_offset - chunk_start spec.fixup_offset) (wanted_chunk region spec)
          >>= finish_region spec region))))
