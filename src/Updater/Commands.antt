-- ===== src/Updater/Commands.antt =====
-- The command blocks of kb7-updater-plan.py and the offsets that they carry.
use kb.Base.{
  ℕ, ◌+◌, ◌-◌, ◌*◌, ◌/◌, ◌%◌, ◌^◌, ◌≤◌, ◌≡◌, refl, ◌&&◌, [], ◌∷◌, arith, leb, ◌==◌, le→leb, length,
  replicate, slice, Bytes, Result, ok,
}
use kb.Updater.Regions.{PlanFault, flash_bytes, flash_base, sector_bytes, block_bytes}
use kb.Updater.Operations.{require}

-- The blocks behind the guards.
abbrev program_block : ℕ → Bytes
program_block absolute =
    0xf6
    ∷ 0x06
    ∷ 0
    ∷ (absolute / 2 ^ 24 % 256)
    ∷ (absolute / 2 ^ 16 % 256)
    ∷ (absolute / 2 ^ 8 % 256)
    ∷ (absolute % 256)
    ∷ 0
    ∷ 1
    ∷ replicate 7 0

abbrev erase_block : ℕ → Bytes
erase_block index = 0xf6 ∷ 0x15 ∷ 0 ∷ (index / 2 ^ 8 % 256) ∷ (index % 256) ∷ replicate 11 0

unfoldable pub cdb_program : ℕ → Result PlanFault Bytes
cdb_program offset =
    require (offset % block_bytes == 0 && leb offset (flash_bytes - block_bytes))
      (ok (program_block (flash_base + offset)))

unfoldable pub cdb_erase : ℕ → Result PlanFault Bytes
cdb_erase offset =
    require (offset % sector_bytes == 0 && leb offset (flash_bytes - sector_bytes))
      (require (leb (offset / 2 ^ 9) 0xffff) (ok (erase_block (offset / 2 ^ 9))))

-- A big-endian number, after the one before it.
abbrev pub be_value : ℕ → Bytes → ℕ
be_value before [] = before
be_value before (x ∷ xs) = be_value (256 * before + x) xs

-- The commands of one offset.
abbrev pub Carries : ℕ → Bytes → Bytes → Type 0
Carries offset to_program to_erase =
    (length to_program ≡ 16)
    × (length to_erase ≡ 16)
    × (be_value 0 (slice to_program 3 4) ≡ flash_base + offset)
    × (be_value 0 (slice to_erase 3 2) * block_bytes ≡ offset)

-- For every offset of a sector of the flash, both command blocks are made and have sixteen bytes;
-- the four address bytes of the program name the byte of the mapped flash, and the two index bytes
-- of the erase name the block.
pub cdb-Carries :
    (offset : ℕ)
    → offset % sector_bytes ≡ 0
    → offset + sector_bytes ≤ flash_bytes
    → (to_program : Bytes) × (to_erase : Bytes) × (cdb_program offset ≡ ok to_program)
      × (cdb_erase offset ≡ ok to_erase)
      × Carries offset to_program to_erase
unfolding cdb_program cdb_erase
cdb-Carries offset aligned fits =
    let block : offset % block_bytes ≡ 0 = omega arith in
    (
      program_block (flash_base + offset),
      erase_block (offset / 2 ^ 9),
      rw (block, le→leb offset (flash_bytes - block_bytes) (omega arith)),
      rw (
        aligned,
        le→leb offset (flash_bytes - sector_bytes) (omega arith),
        le→leb (offset / 2 ^ 9) 0xffff (omega arith),
      ),
      (refl, refl, omega arith, omega arith),
    )
