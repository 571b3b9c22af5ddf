-- ===== src/Inspect/Differences.antt =====
-- `difference_ranges` and `reference_comparison_report` of tools/inspect_stock_flash.py. A report
-- keeps its numbers as numbers, without the texts that `hex32` makes of them.
use kb.Base.{
  ℕ, ◌+◌, ◌-◌, Bool, true, false, not, Option, none, some, List, [], ◌∷◌, ◌++◌, ◌==◌, ◌!=◌,
  if◌then◌else◌, length, Bytes, any, Result, ok, err,
}
use kb.Updater.Sequence.{fwin_checksum}

-- `ValueError` and the error of `struct.unpack_from`
pub data InspectFault : Type 0 where
  value_error struct_error : InspectFault

-- An entry of the list of ranges.
pub record Span : Type 0 where
  pub span_start : ℕ
  pub end_exclusive : ℕ
  pub byte_count : ℕ

abbrev pub span_of : ℕ → ℕ → ℕ → Span
span_of base start index = record {
  span_start = base + start;
  end_exclusive = base + index;
  byte_count = index - start;
}

-- The range that is open behind the loop.
abbrev pub last_span : ℕ → Option ℕ → ℕ → List Span
last_span base none index = []
last_span base (some start) index = span_of base start index ∷ []

-- `start` behind the two tests of a round, and the range that it ends.
abbrev pub next_start : Bool → ℕ → Option ℕ → Option ℕ
next_start true index none = some index
next_start true index (some start) = some start
next_start false index start = none

abbrev pub ended_span : Bool → ℕ → Option ℕ → ℕ → List Span
ended_span true base start index = []
ended_span false base start index = last_span base start index

-- The loop, from an index on.
unfoldable pub scan : Bytes → Bytes → ℕ → ℕ → Option ℕ → List Span
scan (a ∷ left) (b ∷ right) base index start =
    ended_span (a != b) base start index
    ++ scan left right base (index + 1) (next_start (a != b) index start)
scan [] right base index start = last_span base start index
scan (a ∷ left) [] base index start = last_span base start index

unfoldable pub difference_ranges : Bytes → Bytes → ℕ → Result InspectFault (List Span)
difference_ranges left right base =
    if length left != length right then err value_error else ok (scan left right base 0 none)

-- The bytes of the first string at `differing_indexes`.
unfoldable pub differing_bytes : Bytes → Bytes → Bytes
differing_bytes (a ∷ actual) (b ∷ reference) =
    let rest = differing_bytes actual reference in if a != b then a ∷ rest else rest
differing_bytes [] reference = []
differing_bytes (a ∷ actual) [] = []

abbrev pub is_empty : {A : Type 0} → List A → Bool
is_empty [] = true
is_empty (x ∷ xs) = false

-- The report, without the digest of the reference.
pub record Comparison : Type 0 where
  pub reference_vendor_checksum : ℕ
  pub reference_checksum_matches_manifest : Bool
  pub bit_identical : Bool
  pub differing_byte_count : ℕ
  pub installed_differing_bytes_are_all_zero : Bool
  pub difference_spans : List Span

abbrev pub comparison_of : Bytes → Bytes → ℕ → List Span → Comparison
comparison_of actual reference stored_checksum ranges = record {
  reference_vendor_checksum = fwin_checksum reference;
  reference_checksum_matches_manifest = fwin_checksum reference == stored_checksum;
  bit_identical = is_empty ranges;
  differing_byte_count = length (differing_bytes actual reference);
  installed_differing_bytes_are_all_zero = not (any (differing_bytes actual reference));
  difference_spans = ranges;
}

unfoldable pub reference_comparison_report : Bytes → Bytes → ℕ → ℕ → Result InspectFault Comparison
reference_comparison_report actual reference base stored_checksum =
    elim (difference_ranges actual reference base) [
      | ok ranges ↦ ok (comparison_of actual reference stored_checksum ranges)
      | err e ↦ err e
    ]
