-- ===== src/Inspect/Manifest.antt =====
-- `manifest_report` and `boot_configuration_report` of
-- tools/inspect_stock_flash.py, without the digests and the texts of a report.
use kb.Base.{
  ℕ, zero, suc, ◌+◌, ◌-◌, ◌*◌, Bool, ◌&&◌, not, Option, none, some, List, [], ◌∷◌, ltb, leb, ◌==◌,
  if◌then◌else◌, length, take, slice, Bytes, le_value, eq_bytes, rounds, Result, ok, err,
}
use kb.Updater.Sequence.{fwin_checksum}
use kb.Inspect.Differences.{InspectFault, value_error, struct_error}

abbrev pub chip_bytes : ℕ
chip_bytes = 0x02000000

abbrev pub xip_base : ℕ
xip_base = 0x60000000

abbrev pub scan_bytes : ℕ
scan_bytes = 0x1000

abbrev pub manifest_offset : ℕ
manifest_offset = 0x10000

-- `b"SN_FWIN\0v1.0.00\0"`
abbrev pub format_magic : Bytes
format_magic = 83 ∷ 78 ∷ 95 ∷ 70 ∷ 87 ∷ 73 ∷ 78 ∷ 0 ∷ 118 ∷ 49 ∷ 46 ∷ 48 ∷ 46 ∷ 48 ∷ 48 ∷ 0 ∷ []

abbrev pub manifest_entry_offset : ℕ
manifest_entry_offset = 0x20

abbrev pub manifest_entry_count : ℕ
manifest_entry_count = 4

-- An entry of the report.
pub record Entry : Type 0 where
  pub entry_index : ℕ
  pub load_address : ℕ
  pub storage_address : ℕ
  pub flash_offset : ℕ
  pub entry_length : ℕ
  pub entry_end : ℕ
  pub stored_checksum : ℕ
  pub calculated_checksum : ℕ
  pub checksum_matches : Bool

abbrev pub entry_of : Bytes → ℕ → ℕ → ℕ → ℕ → ℕ → Entry
entry_of image index load storage size stored =
    let place = storage - xip_base in
    let calculated = fwin_checksum (slice image place size) in
    record {
      entry_index = index;
      load_address = load;
      storage_address = storage;
      flash_offset = place;
      entry_length = size;
      entry_end = place + size;
      stored_checksum = stored;
      calculated_checksum = calculated;
      checksum_matches = calculated == stored;
    }

-- The round of an index; nothing for an entry that has no length.
unfoldable pub read_entry : Bytes → Bytes → ℕ → Result InspectFault (Option Entry)
read_entry image manifest index =
    let place = manifest_entry_offset + index * 16 in
    let load = le_value (slice manifest place 4) in
    let storage = le_value (slice manifest (place + 4) 4) in
    let size = le_value (slice manifest (place + 8) 4) in
    let stored = le_value (slice manifest (place + 12) 4) in
    if ltb (length manifest) (place + 16)
    then err struct_error
    else if size == 0
    then ok none
    else if not (leb xip_base storage && ltb storage (xip_base + chip_bytes))
    then err value_error
    else if ltb (chip_bytes - (storage - xip_base)) size
    then err value_error
    else ok (some (entry_of image index load storage size stored))

abbrev pub with_entry : Option Entry → List Entry → List Entry
with_entry none entries = entries
with_entry (some entry) entries = entry ∷ entries

-- The loop from an index on, with the rounds left.
unfoldable pub read_entries : Bytes → Bytes → ℕ → ℕ → Result InspectFault (List Entry)
read_entries image manifest zero index = ok []
read_entries image manifest (suc rounds) index =
    let rest = read_entries image manifest rounds (index + 1) in
    elim (read_entry image manifest index) [
      | ok entry ↦ elim rest [ ok entries ↦ ok (with_entry entry entries) | err e ↦ err e ]
      | err e ↦ err e
    ]

unfoldable pub manifest_report : Bytes → Result InspectFault (List Entry)
manifest_report image =
    let manifest = slice image manifest_offset scan_bytes in
    if not (eq_bytes (take 16 manifest) format_magic)
    then err value_error
    else read_entries image manifest manifest_entry_count 0

-- The addresses of the report on the boot configuration.
pub record BootConfiguration : Type 0 where
  pub primary_manifest_address : ℕ
  pub primary_manifest_flash_offset : Option ℕ
  pub secondary_manifest_address : ℕ

unfoldable pub boot_configuration_report : Bytes → Result InspectFault BootConfiguration
boot_configuration_report image =
    let header = slice image 0x200 16 in
    let primary = le_value (slice header 8 4) in
    if ltb (length header) 16
    then err struct_error
    else ok (record {
      primary_manifest_address = primary;
      primary_manifest_flash_offset =
          if leb xip_base primary && ltb primary (xip_base + chip_bytes)
          then some (primary - xip_base)
          else none;
      secondary_manifest_address = le_value (slice header 12 4);
    })
