-- ===== src/Updater/Loads.antt =====
-- `validate_load_ranges` and `validate_extracted_image` of kb7-updater-plan.py: where an ELF file
-- puts its bytes. The LOAD lines that the pattern finds in the output of readelf are the argument.
use kb.Base.{
  ℕ, zero, suc, ◌+◌, ◌-◌, ◌*◌, ◌/◌, ◌%◌, ◌^◌, ◌≤◌, ◌<◌, min, bit_and, bit_or, bit_xor, ◌≡◌, refl,
  sym, ap, ap₂, subst, ◌∙◌, ◌≢◌, ◌↔◌, ◌⊎◌, inl, inr, Bool, true, false, ◌&&◌, ◌||◌, not, Option,
  none, some, List, [], ◌∷◌, ◌++◌, map, append_assoc, append-nil, arith, ltb, leb, ◌==◌, ◌!=◌,
  if◌then◌else◌, ltb→lt, lt→ltb, leb→le, le→leb, ==_iff, ==_refl, tests, Bool-cases, Option-cases,
  and-eq-true, length, get_elem?, set, take, drop, replicate, length-append, length-take,
  length-drop, length-replicate, length-set, take-append-drop, take-all, drop-all, take-append,
  drop-append, take-append_le, drop-append_le, drop-drop, drop-nil, take-nil, replicate-append,
  replicate_split, take-append-take, slice, splice, length-slice, slice-append,
  get_elem?-append_middle, set-append_middle, Bytes, IsBytes, le, le_value, ljust, any, eq_bytes,
  eq_bytes_sound, eq_bytes_refl, IsBytes-append, IsBytes-take, IsBytes-drop, IsBytes-replicate,
  IsBytes-le, length-le, le-le_value, le_value-lt, length-ljust, IsBytes-ljust, ljust-full,
  take-ljust, any-drop-ljust, bit_or-full, bit_and-full, bit_and_comm, bit_and_self, bit_and_absorb,
  bit_and_assoc, bit_and-le, bit_or_self, crc32, is_utf8, crc32-lt, bit_xor_longer, lt-or-le,
  get_elem?_past, get_elem?-drop, get_elem?-take, get_elem?-take_past, get_elem?-append_left,
  get_elem?-append_right, get_elem?-replicate, get_elem?-slice, get_elem?_equal, slice_equal,
  bit_xor_injective, digit_split, scale-bit_xor, bit_xor-eq-zero, crc32_word_change, rounds,
  rounds-bit_xor, rounds-eq-zero, rounds-lt, bit_xor-low, bit_xor-half, zero-bit_xor, by_digits,
  bit_xor_comm, bit_xor-zero, bit_xor_self, bit_xor_assoc, bit_xor_cancel, bit_xor_swap, bit_xor-lt,
  bit_xor_same_length, Result, ok, err, Action, pure, raise, lift, modify, guard-eq-ok, then-eq-ok,
}
use Prim.Native.Nat.{max}
use kb.Updater.Regions.{PlanFault, plan_error, Core, core0, core1, RegionSpec}
use kb.Updater.Operations.{require}
pub mod Ranges
pub mod Extent
mod Tests

-- The last three groups of a match; the first, the virtual address, is not read.
pub record LoadLine : Type 0 where
  pub physical : ℕ
  pub file_size : ℕ
  pub memory_size : ℕ

-- The loop over the matches.
unfoldable pub collect_ranges : ℕ → ℕ → List LoadLine → Result PlanFault (List (ℕ × ℕ))
collect_ranges expected_vma maximum [] = ok []
collect_ranges expected_vma maximum (line ∷ lines) =
    let end = line.physical + line.file_size in
    let rest = collect_ranges expected_vma maximum lines in
    require (leb line.file_size line.memory_size) (
      if line.file_size == 0
      then rest
      else require
          (ltb line.physical end
            && leb expected_vma line.physical
            && leb end (expected_vma + maximum))
          (elim rest [ ok ranges ↦ ok ((line.physical, end) ∷ ranges) | err e ↦ err e ]))

-- `ranges.sort()`, with the order of tuples.
abbrev pub is_before : ℕ × ℕ → ℕ × ℕ → Bool
is_before (start, end) (start', end') = ltb start start' || (start == start') && leb end end'

abbrev pub insert_range : ℕ × ℕ → List (ℕ × ℕ) → List (ℕ × ℕ)
insert_range range [] = range ∷ []
insert_range range (first ∷ rest) =
    if is_before range first then range ∷ first ∷ rest else first ∷ insert_range range rest

abbrev pub sort_ranges : List (ℕ × ℕ) → List (ℕ × ℕ)
sort_ranges [] = []
sort_ranges (range ∷ ranges) = insert_range range (sort_ranges ranges)

-- The loop over `zip(ranges, ranges[1:])`.
abbrev pub is_chain : List (ℕ × ℕ) → Bool
is_chain [] = true
is_chain (range ∷ []) = true
is_chain ((start, end) ∷ (start', end') ∷ rest) = leb end start' && is_chain ((start', end') ∷ rest)

-- `max(end for _, end in ranges)`
abbrev pub max_end : List (ℕ × ℕ) → ℕ
max_end [] = 0
max_end ((start, end) ∷ rest) = max end (max_end rest)

abbrev pub start_of : List (ℕ × ℕ) → Option ℕ
start_of [] = none
start_of ((start, end) ∷ rest) = some start

-- What follows the sort.
unfoldable pub sorted_extent : ℕ → List (ℕ × ℕ) → Result PlanFault ℕ
sorted_extent expected_vma ranges = elim (start_of ranges) [
  | none ↦ err plan_error
  | some start ↦
      require (start == expected_vma)
        (require (is_chain ranges) (ok (max_end ranges - expected_vma)))
]

unfoldable pub validate_load_ranges : List LoadLine → ℕ → ℕ → Result PlanFault ℕ
validate_load_ranges lines expected_vma maximum = elim (collect_ranges expected_vma maximum lines) [
  | err e ↦ err e
  | ok ranges ↦ sorted_extent expected_vma (sort_ranges ranges)
]

-- `spec is CORE0` is told by the name of the region.
unfoldable pub validate_extracted_image : Bytes → RegionSpec → ℕ → Result PlanFault (Unit {0})
validate_extracted_image raw spec entry =
    require (not (length raw == 0) && leb (length raw) spec.fixup_offset) (elim spec.name [
      | core0 ↦
          let stack = le_value (slice raw 0 4) in
          let reset = le_value (slice raw 4 4) in
          require (leb (79 * 4) (length raw)) (
            require
              ((stack == 0x1803f5c0)
                && (reset == entry)
                && (reset % 2 == 1)
                && ltb (reset - reset % 2) (length raw))
              (ok tt))
      | core1 ↦ require (entry == 0x10000001) (ok tt)
    ])
