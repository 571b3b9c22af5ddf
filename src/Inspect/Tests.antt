-- ===== src/Inspect/Tests.antt =====
-- Witnesses for the comparison of two reads in tools/inspect_stock_flash.py.
use kb.Base.{
  ℕ, ◌+◌, ◌-◌, ◌/◌, ◌≡◌, refl, ◌↔◌, true, List, [], ◌∷◌, ◌++◌, length, replicate, Bytes, le, ok,
}
use kb.Inspect.Differences.{
  Span, Comparison, scan, difference_ranges, differing_bytes, reference_comparison_report,
}
use kb.Inspect.Manifest.{Entry, entry_of, format_magic, scan_bytes}
use kb.Inspect.Sectors.{
  SectorSpan, run_count, programmed_at, non_erased_ranges, non_erased_ranges-exact,
}
use kb.Inspect.Compared.{
  span_count, counted_bytes, differs_at, difference_ranges-exact,
  reference_comparison_report-identical,
}

abbrev installed_bytes : Bytes
installed_bytes = 7 ∷ 0 ∷ 0 ∷ 5 ∷ 0 ∷ []

abbrev reference_bytes : Bytes
reference_bytes = 7 ∷ 1 ∷ 2 ∷ 5 ∷ 3 ∷ []

two_ranges :
    difference_ranges installed_bytes reference_bytes 100
    ≡ ok (
        record { span_start = 101; end_exclusive = 103; byte_count = 2 }
        ∷ record { span_start = 104; end_exclusive = 105; byte_count = 1 }
        ∷ [])
unfolding difference_ranges scan
two_ranges = refl

difference_ranges-exact_example :
    (ranges : List Span) × (difference_ranges installed_bytes reference_bytes 100 ≡ ok ranges)
    × ((i : ℕ) → span_count ranges (100 + i) ≡ differs_at installed_bytes reference_bytes i)
    × (counted_bytes ranges ≡ length (differing_bytes installed_bytes reference_bytes))
difference_ranges-exact_example = difference_ranges-exact installed_bytes reference_bytes 100 refl

reference_comparison_report-identical_example :
    (report : Comparison) × (reference_comparison_report installed_bytes reference_bytes 100 9
      ≡ ok report)
    × ((report.bit_identical ≡ true) ↔ (installed_bytes ≡ reference_bytes))
    × (report.differing_byte_count ≡ counted_bytes report.difference_spans)
reference_comparison_report-identical_example =
    reference_comparison_report-identical installed_bytes reference_bytes 100 9 refl

-- A manifest with one region of four bytes at the start of the flash.
abbrev inspected_manifest : Bytes
inspected_manifest =
    format_magic
    ++ (replicate 16 0
        ++ (le 4 0x10000000 ++ (le 4 0x60000000 ++ (le 4 4 ++ (le 4 9 ++ replicate 4048 0)))))

abbrev inspected_image : Bytes
inspected_image = replicate 0x10000 255 ++ (inspected_manifest ++ [])

abbrev inspected_entries : List Entry
inspected_entries = entry_of inspected_image 0 0x10000000 0x60000000 4 9 ∷ []

-- An erased sector before one that is not.
abbrev two_sectors : Bytes
two_sectors = replicate 0x1000 255 ++ (7 ∷ replicate 0xfff 255)

non_erased_ranges-exact_example :
    (ranges : List SectorSpan) × (non_erased_ranges two_sectors 0 0x2000 ≡ ok ranges)
    × ((k : ℕ)
        → run_count ranges (0 + k) ≡ programmed_at two_sectors ((0x2000 - 0) / scan_bytes) 0 k)
non_erased_ranges-exact_example = non_erased_ranges-exact two_sectors 0 0x2000 refl refl
