-- ===== src/Updater/Patch.antt =====
-- The correction of a checksum in kb7-updater-plan.py: `crc_patch` and `crc_word_rank`.
use kb.Base.{
  ℕ, zero, suc, ◌+◌, ◌-◌, ◌*◌, ◌/◌, ◌%◌, ◌^◌, ◌≤◌, ◌<◌, min, bit_and, bit_or, bit_xor, ◌≡◌, refl,
  sym, ap, ap₂, subst, ◌∙◌, ◌≢◌, ◌↔◌, ◌⊎◌, inl, inr, Bool, true, false, ◌&&◌, ◌||◌, not, Option,
  none, some, List, [], ◌∷◌, ◌++◌, map, append_assoc, append-nil, arith, ltb, leb, ◌==◌, ◌!=◌,
  if◌then◌else◌, ltb→lt, lt→ltb, leb→le, le→leb, ==_iff, ==_refl, tests, Bool-cases, Option-cases,
  and-eq-true, length, get_elem?, set, take, drop, replicate, length-append, length-take,
  length-drop, length-replicate, length-set, take-append-drop, take-all, drop-all, take-append,
  drop-append, take-append_le, drop-append_le, drop-drop, drop-nil, take-nil, replicate-append,
  replicate_split, take-append-take, slice, splice, length-slice, slice-append,
  get_elem?-append_middle, set-append_middle, Bytes, IsBytes, le, le_value, ljust, any, eq_bytes,
  eq_bytes_sound, eq_bytes_refl, IsBytes-append, IsBytes-take, IsBytes-drop, IsBytes-replicate,
  IsBytes-le, length-le, le-le_value, le_value-lt, length-ljust, IsBytes-ljust, ljust-full,
  take-ljust, any-drop-ljust, bit_or-full, bit_and-full, bit_and_comm, bit_and_self, bit_and_absorb,
  bit_and_assoc, bit_and-le, bit_or_self, crc32, is_utf8, crc32-lt, bit_xor_longer, digit_split,
  scale-bit_xor, bit_xor-eq-zero, crc32_word_change, rounds, rounds-bit_xor, rounds-eq-zero,
  rounds-lt, bit_xor-low, bit_xor-half, zero-bit_xor, by_digits, bit_xor_comm, bit_xor-zero,
  bit_xor_self, bit_xor_assoc, bit_xor_cancel, bit_xor_swap, bit_xor-lt, bit_xor_same_length,
  Result, ok, err, Action, pure, raise, lift, ◌>>=◌, ◌>>◌, raise_if, modify, guard-eq-ok,
  then-eq-ok,
}
use kb.Updater.Regions.{PlanFault, plan_error}
use kb.Updater.Operations.{require, store_slice}
use kb.Updater.Gf2.{gf2_solve}
pub mod Linear
pub mod Total

-- The loop over `range(32)`, with the checksum of the candidate as a function of its word.
abbrev pub crc_columns : (ℕ → ℕ) → ℕ → ℕ → List ℕ
crc_columns checksum bit zero = []
crc_columns checksum bit (suc count) = checksum (2 ^ bit) ∷ crc_columns checksum (suc bit) count

-- `zlib.crc32` of the chunk with a word stored at the offset.
abbrev pub crc_with_word : Bytes → ℕ → Bytes → ℕ
crc_with_word base offset word = crc32 (store_slice base offset (offset + 4) word)

-- `base_data`
abbrev pub zeroed : Bytes → ℕ → Bytes
zeroed chunk offset = store_slice chunk offset (offset + 4) (le 4 0)

-- `columns`
abbrev pub word_columns : Bytes → ℕ → List ℕ
word_columns base offset =
    crc_columns (λ word. bit_xor (crc_with_word base offset (le 4 word)) (crc32 base)) 0 32

unfoldable pub crc_patch : Bytes → ℕ → ℕ → Result PlanFault (Bytes × ℕ)
crc_patch chunk patch_offset wanted_crc = require (leb (patch_offset + 4) (length chunk)) (
    let base = zeroed chunk patch_offset in
    elim (gf2_solve (word_columns base patch_offset) (bit_xor wanted_crc (crc32 base))) [
      | ok (value, rank) ↦
          let patch = le 4 value in
          require (crc_with_word base patch_offset patch == wanted_crc) (ok (patch, rank))
      | err e ↦ err e
    ])

unfoldable pub crc_word_rank : Bytes → ℕ → Result PlanFault ℕ
crc_word_rank chunk word_offset =
    require (leb (word_offset + 4) (length chunk))
      (elim (gf2_solve (word_columns (zeroed chunk word_offset) word_offset) 0) [
        | ok (value, rank) ↦ ok rank
        | err e ↦ err e
      ])
