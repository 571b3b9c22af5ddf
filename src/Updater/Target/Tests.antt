-- ===== src/Updater/Target/Tests.antt =====
-- Witnesses for the balanced region: a small region with a marker.
use kb.Base.{
  ℕ, ◌/◌, ◌%◌, ◌^◌, ◌<◌, bit_xor, ◌≡◌, refl, ◌≢◌, true, false, some, List, [], ◌∷◌, ◌++◌, arith,
  length, take, replicate, Bytes, le, crc32, ok, err,
}
use kb.Updater.Regions.{core0, core0_start, RegionSpec, out_of_fuel}
use kb.Updater.Operations.{erased, store_slice}
use kb.Updater.Sequence.{chunk_sum, fwin_checksum}
use kb.Updater.Gf2.{gf2_solve}
use kb.Updater.Gf2.Columns.{combine}
use kb.Updater.Gf2.Solved.{gf2_solve_ends, gf2_solve_sound, gf2_solve_full_rank}
use kb.Updater.Patch.{crc_columns, crc_with_word, crc_patch, crc_word_rank}
use kb.Updater.Patch.Total.{crc_word_rank_full, crc_patch_total}
use kb.Updater.Target.{
  pair_id_bytes, validate_pair_placeholder, hex, hex_word, marked_region, TargetRegion, is_geometry,
  build_target_region,
}
use kb.Updater.Target.Validation.{is_reserved, validate_target_region, start_text, region_entry}
use kb.Updater.Target.Promises.{build_target_region_balances, build_target_region_verified}

abbrev small_spec : RegionSpec
small_spec = record {
  name = core0;
  start = core0_start;
  region_length = 0x600;
  envelope_end = 0x12000;
  vma = 0;
  pair_offset = 0;
  role = 0;
  fixup_offset = 0x200;
  gate_offset = 0x400;
  manifest_checksum = 0x12345678;
}

abbrev raw_image : Bytes
raw_image = le 4 0x5037424b ++ (le 2 1 ++ (le 2 32 ++ (le 4 0 ++ (le 4 2 ++ erased pair_id_bytes))))

abbrev sevens : Bytes
sevens = replicate pair_id_bytes 7

raw_image-marked : validate_pair_placeholder raw_image small_spec ≡ ok tt
unfolding validate_pair_placeholder erased
raw_image-marked = refl

raw_image-geometry : is_geometry raw_image small_spec ≡ true
unfolding erased
raw_image-geometry = refl

abbrev blank_region : Bytes
blank_region = store_slice (marked_region raw_image small_spec sevens) 0x400 0x404 (le 4 0)

blank_sum : fwin_checksum blank_region ≡ 82516938
unfolding fwin_checksum chunk_sum crc32 erased
blank_sum = refl

blank-unbalanced : fwin_checksum blank_region ≢ small_spec.manifest_checksum
blank-unbalanced e = omega (arith, blank_sum, e)

start_text-core0 : start_text core0 ≡ hex_word core0_start
unfolding start_text hex_word hex
start_text-core0 = refl

abbrev all_ones : ℕ
all_ones = 0xffffffff

all_ones-set : all_ones ≢ 0
all_ones-set e = omega (arith, e)

build_target_region_balances_example :
    (built : TargetRegion) × (build_target_region raw_image small_spec sevens ≡ ok built)
    × (length built.target ≡ 0x600)
    × (fwin_checksum built.target ≡ 0x12345678)
    × (fwin_checksum (store_slice built.target 0x400 0x404 (le 4 all_ones)) ≢ 0x12345678)
build_target_region_balances_example =
    build_target_region_balances raw_image small_spec sevens all_ones refl raw_image-marked
      raw_image-geometry (omega arith) (omega arith) blank-unbalanced (omega arith) all_ones-set

sevens-free : is_reserved sevens ≡ false
unfolding erased
sevens-free = refl

-- A digest for the witness: the first 32 bytes.
abbrev first_bytes : Bytes → Bytes
first_bytes bs = take 32 bs

build_target_region_verified_example :
    (built : TargetRegion) × (build_target_region raw_image small_spec sevens ≡ ok built)
    × (validate_target_region first_bytes built.target small_spec sevens
          (some (region_entry first_bytes small_spec built))
        ≡ ok built.staged)
build_target_region_verified_example =
    build_target_region_verified first_bytes raw_image small_spec sevens refl sevens-free
      raw_image-marked raw_image-geometry (omega arith) (omega arith) start_text-core0
      blank-unbalanced

-- A chunk of eight bytes, corrected at its fourth.
abbrev small_chunk : Bytes
small_chunk = 1 ∷ 2 ∷ 3 ∷ 4 ∷ 5 ∷ 6 ∷ 7 ∷ 8 ∷ []

crc_patch_total_example :
    (value : ℕ) × (crc_patch small_chunk 4 0x12345678 ≡ ok (le 4 value, 32))
    × (crc_with_word small_chunk 4 (le 4 value) ≡ 0x12345678)
    × (value < 2 ^ 32)
crc_patch_total_example = crc_patch_total small_chunk 4 (omega arith) 0x12345678 (omega arith)

crc_word_rank_full_example : crc_word_rank small_chunk 4 ≡ ok 32
crc_word_rank_full_example = crc_word_rank_full small_chunk 4 (omega arith)

-- Columns that add up neighbours.
abbrev neighbours : List ℕ
neighbours = crc_columns (λ x. bit_xor x (x / 2)) 0 32

neighbours_solved : gf2_solve neighbours 5 ≡ ok (6, 32)
unfolding gf2_solve
neighbours_solved = refl

gf2_solve_sound_example : (combine neighbours 6 ≡ 5 % 2 ^ 32) × (6 < 2 ^ 32)
gf2_solve_sound_example = gf2_solve_sound neighbours 5 6 32 neighbours_solved

gf2_solve_ends_example : gf2_solve neighbours 9 ≢ err out_of_fuel
gf2_solve_ends_example = gf2_solve_ends neighbours 9

gf2_solve_full_rank_example : (solution : ℕ) × (gf2_solve neighbours 9 ≡ ok (solution, 32))
gf2_solve_full_rank_example = gf2_solve_full_rank neighbours 5 6 neighbours_solved 9
