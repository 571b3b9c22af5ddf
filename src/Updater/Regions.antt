-- ===== src/Updater/Regions.antt =====
-- The layout of the flash in kb7-updater-plan.py: its constants and the two core regions.
use Prim.Native.Nat.{ℕ, ◌-◌}

-- `PlanError`, without its message; `out_of_fuel` is the end of a loop that had too few steps.
pub data PlanFault : Type 0 where
  plan_error out_of_fuel : PlanFault

abbrev pub flash_bytes : ℕ
flash_bytes = 0x02000000

abbrev pub flash_base : ℕ
flash_base = 0x60000000

abbrev pub sector_bytes : ℕ
sector_bytes = 0x1000

abbrev pub block_bytes : ℕ
block_bytes = 0x200

abbrev pub core0_start : ℕ
core0_start = 0x11000

abbrev pub core0_length : ℕ
core0_length = 0xf35c

abbrev pub core0_envelope_end : ℕ
core0_envelope_end = 0x21000

abbrev pub core1_start : ℕ
core1_start = 0x21000

abbrev pub core1_length : ℕ
core1_length = 0x6b168

abbrev pub core1_envelope_end : ℕ
core1_envelope_end = 0x8d000

-- The `name` of a region.
pub data Core : Type 0 where
  core0 core1 : Core

-- `RegionSpec`, with `region_length` for its `length`.
pub record RegionSpec : Type 0 where
  pub name : Core
  pub start : ℕ
  pub region_length : ℕ
  pub envelope_end : ℕ
  pub vma : ℕ
  pub pair_offset : ℕ
  pub role : ℕ
  pub fixup_offset : ℕ
  pub gate_offset : ℕ
  pub manifest_checksum : ℕ

abbrev pub envelope_length : RegionSpec → ℕ
envelope_length spec = spec.envelope_end - spec.start

abbrev pub core0_spec : RegionSpec
core0_spec = record {
  name = core0;
  start = core0_start;
  region_length = core0_length;
  envelope_end = core0_envelope_end;
  vma = 0;
  pair_offset = 0x140;
  role = 0;
  fixup_offset = 0xee00;
  gate_offset = 0xf000;
  manifest_checksum = 0xc3f43a6f;
}

abbrev pub core1_spec : RegionSpec
core1_spec = record {
  name = core1;
  start = core1_start;
  region_length = core1_length;
  envelope_end = core1_envelope_end;
  vma = 0x10000000;
  pair_offset = 0x100;
  role = 1;
  fixup_offset = 0x6ac00;
  gate_offset = 0x6ae00;
  manifest_checksum = 0xc8ed2815;
}
