-- ===== src/Storage/Nor.antt =====
-- `AtomicSlots._program` of storage.py: a NOR write clears bits and sets none.
use kb.Base.{
  ℕ, ◌+◌, none, some, [], ◌∷◌, Bytes, ok, err, Action, get_elem?, set, bit_and, bit_or, ◌==◌,
  if◌then◌else◌,
}
use kb.Storage.Header.{Fault, value_error, index_error}

-- The loop over `data` at `offset`. The bytes before the one that raises stay programmed.
unfoldable pub program : ℕ → Bytes → Action Bytes Fault (Unit {0})
program offset [] flash = (ok tt, flash)
program offset (value ∷ rest) flash = elim (get_elem? flash offset) [
  | none ↦ (err index_error, flash)
  | some old ↦
      if bit_or value old == old
      then program (offset + 1) rest (set flash offset (bit_and old value))
      else (err value_error, flash)
]
