-- ===== src/Inspect/Entries.antt =====
-- The entries that `manifest_report` of tools/inspect_stock_flash.py accepts.
use kb.Base.{
  ◌+◌, ◌≤◌, ◌<◌, ◌≡◌, ◌↔◌, true, Option, none, some, List, [], ◌∷◌, slice, Bytes, Result, ok, err,
}
use kb.Updater.Sequence.{fwin_checksum}
use kb.Inspect.Differences.{InspectFault}
use kb.Inspect.Manifest.{chip_bytes, xip_base, Entry}

-- An entry that has a length, lies in the flash, and whose verdict is about its own bytes.
pub record IsSound (image : Bytes) (entry : Entry) : Type 0 where
  pub some_bytes : 0 < entry.entry_length
  pub inside : entry.flash_offset + entry.entry_length ≤ chip_bytes
  pub mapped : entry.storage_address ≡ xip_base + entry.flash_offset
  pub verdict :
      (entry.checksum_matches ≡ true)
      ↔ (fwin_checksum (slice image entry.flash_offset entry.entry_length) ≡ entry.stored_checksum)

abbrev pub AllSound : Bytes → List Entry → Type 0
AllSound image [] = Unit
AllSound image (entry ∷ entries) = IsSound image entry × AllSound image entries

abbrev IsSoundOption : Bytes → Option Entry → Type 0
IsSoundOption image none = Unit
IsSoundOption image (some entry) = IsSound image entry

abbrev AllSoundResult : Bytes → Result InspectFault (List Entry) → Type 0
AllSoundResult image (ok entries) = AllSound image entries
AllSoundResult image (err e) = Unit
