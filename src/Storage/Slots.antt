-- ===== src/Storage/Slots.antt =====
-- `AtomicSlots` of storage.py: the slot of an index, the active payload and the commit.
use kb.Base.{
  ℕ, ◌+◌, ◌-◌, ◌*◌, ◌%◌, ◌^◌, Bool, true, false, ◌&&◌, ◌||◌, Option, none, some, Bytes, err, Action,
  ◌>>=◌, ◌>>◌, lift, raise_if, modify, le, le_value, slice, splice, replicate, length, ltb, ◌==◌,
  if◌then◌else◌, crc32,
}
use kb.Storage.Header.{
  Fault, value_error, power_loss, header_size, writing_state, valid_state, make_header,
  parse_header,
}
use kb.Storage.Nor.{program}

-- `fail_after`. Any other text behaves as `None`.
pub data Stage : Type 0 where
  erase header payload : Stage

-- `0 < ((left - right) & 0xFFFFFFFF) < 0x80000000`, of two 32-bit words.
abbrev pub is_newer : ℕ → ℕ → Bool
is_newer left right = let d = (left + 2 ^ 32 - right) % 2 ^ 32 in ltb 0 d && ltb d 0x80000000

-- `struct.unpack("<I", value[0])[0]`
abbrev pub generation_of : Bytes × Bytes → ℕ
generation_of (g, p) = le_value g

-- `active`, over the two slots.
abbrev pub active_of : Option (Bytes × Bytes) → Option (Bytes × Bytes) → Option Bytes
active_of none none = none
active_of none (some r) = some r.1
active_of (some l) none = some l.1
active_of (some l) (some r) =
    some (if is_newer (generation_of l) (generation_of r) then l.1 else r.1)

-- The slot that `commit` writes, with its generation.
pub record Target : Type 0 where
  pub index : ℕ
  pub generation : ℕ

abbrev pub choose_target : Option (Bytes × Bytes) → Option (Bytes × Bytes) → Target
choose_target none none = record { index = 0; generation = 1 }
choose_target none (some r) = record { index = 0; generation = (generation_of r + 1) % 2 ^ 32 }
choose_target (some l) none = record { index = 1; generation = (generation_of l + 1) % 2 ^ 32 }
choose_target (some l) (some r) =
    if is_newer (generation_of l) (generation_of r)
    then record { index = 1; generation = (generation_of l + 1) % 2 ^ 32 }
    else record { index = 0; generation = (generation_of r + 1) % 2 ^ 32 }

-- `if fail_after == stage: raise PowerLoss`
abbrev pub is_stage : Stage → Option Stage → Bool
is_stage erase (some erase) = true
is_stage header (some header) = true
is_stage payload (some payload) = true
is_stage _ _ = false

module _ (slot_size : ℕ) where
  -- `_slot`, without the two words that only copy.
  unfoldable pub slot : ℕ → Bytes → Option (Bytes × Bytes)
  slot index flash =
      let base = index * slot_size in
      elim (parse_header (slice flash base header_size)) [
        | none ↦ none
        | some p ↦
            if ltb slot_size (p.payload_length + header_size)
            then none
            else let content = slice flash (base + header_size) p.payload_length in
              if crc32 content == p.payload_crc then some (le 4 p.generation, content) else none
      ]

  unfoldable pub active : Bytes → Option Bytes
  active flash = active_of (slot 0 flash) (slot 1 flash)

  -- The part of `commit` after the choice of the slot: erase, header, payload, state word.
  unfoldable pub write_slot : Target → Bytes → Option Stage → Action Bytes Fault (Unit {0})
  write_slot target content fail_after = do
    let base = target.index * slot_size
    modify (λ flash. splice flash base (replicate slot_size 255))
    raise_if (is_stage erase fail_after) power_loss
    head ← lift (make_header writing_state target.generation content)
    program base head
    raise_if (is_stage header fail_after) power_loss
    program (base + header_size) content
    raise_if (is_stage payload fail_after) power_loss
    program (base + 8) (le 4 valid_state)

  unfoldable pub commit : Bytes → Option Stage → Action Bytes Fault (Unit {0})
  commit content fail_after flash =
      if length content == 0 || ltb slot_size (length content + header_size)
      then (err value_error, flash)
      else write_slot (choose_target (slot 0 flash) (slot 1 flash)) content fail_after flash
