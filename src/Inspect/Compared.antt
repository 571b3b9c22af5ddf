-- ===== src/Inspect/Compared.antt =====
-- What the ranges of tools/inspect_stock_flash.py hold.
use kb.Base.{
  ℕ, zero, suc, ◌+◌, ◌≤◌, ◌<◌, ◌≡◌, refl, sym, ap, ap₂, ◌∙◌, ◌↔◌, inl, inr, Bool, true, false, ◌&&◌,
  Option, none, some, List, [], ◌∷◌, ◌++◌, arith, ltb, leb, ◌==◌, ◌!=◌, if◌then◌else◌, ==_refl,
  Bool-cases, length, Bytes, Result, ok, err,
}
use kb.Inspect.Differences.{
  InspectFault, Span, Comparison, comparison_of, reference_comparison_report, is_empty, last_span,
  next_start, ended_span, scan, difference_ranges, differing_bytes,
}

abbrev pub has_offset : Span → ℕ → ℕ
has_offset span at = if leb span.span_start at && ltb at span.end_exclusive then 1 else 0

-- How many ranges have an offset, and how many bytes the ranges count.
abbrev pub span_count : List Span → ℕ → ℕ
span_count [] at = 0
span_count (span ∷ spans) at = has_offset span at + span_count spans at

abbrev pub counted_bytes : List Span → ℕ
counted_bytes [] = 0
counted_bytes (span ∷ spans) = span.byte_count + counted_bytes spans

-- 1 for an index where the strings differ.
abbrev pub differs_at : Bytes → Bytes → ℕ → ℕ
differs_at (a ∷ left) (b ∷ right) zero = if a != b then 1 else 0
differs_at (a ∷ left) (b ∷ right) (suc i) = differs_at left right i
differs_at [] right i = 0
differs_at (a ∷ left) [] i = 0

abbrev IsOpen : Option ℕ → ℕ → Type 0
IsOpen none index = Unit
IsOpen (some start) index = start ≤ index

span_count-append :
    (xs ys : List Span) (at : ℕ) → span_count (xs ++ ys) at ≡ span_count xs at + span_count ys at
span_count-append [] ys at = omega arith
span_count-append (x ∷ xs) ys at = omega (arith, span_count-append xs ys at)

counted_bytes-append :
    (xs ys : List Span) → counted_bytes (xs ++ ys) ≡ counted_bytes xs + counted_bytes ys
counted_bytes-append [] ys = omega arith
counted_bytes-append (x ∷ xs) ys = omega (arith, counted_bytes-append xs ys)

next_start-IsOpen :
    (t : Bool) (index : ℕ) (start : Option ℕ)
    → IsOpen start index
    → IsOpen (next_start t index start) (index + 1)
next_start-IsOpen true index none h = omega arith
next_start-IsOpen true index (some start) h = omega arith
next_start-IsOpen false index start h = tt

-- An offset behind the index is in no range that ends there, and the one of the index is in the
-- open range behind the round where the bytes differ.
before-round :
    (base index : ℕ) (start : Option ℕ) (i : ℕ)
    → span_count (last_span base start index) (base + (index + i)) ≡ 0
before-round base index none i = refl
before-round base index (some start) i = ground arith

round-lem :
    (t : Bool) (base index : ℕ) (start : Option ℕ) (at : ℕ)
    → IsOpen start index
    → span_count (ended_span t base start index) (base + at)
        + span_count (last_span base (next_start t index start) (index + 1)) (base + at)
      ≡ span_count (last_span base start index) (base + at) + (if (at == index) && t then 1 else 0)
round-lem true base index none at h = ground arith
round-lem true base index (some start) at h = ground arith
round-lem false base index none at h = ground arith
round-lem false base index (some start) at h = ground arith

-- The ranges from an index on have the offsets before it that the open range has.
scan-before :
    (left right : Bytes) (base index : ℕ) (start : Option ℕ) (at : ℕ)
    → IsOpen start index
    → at < index
    → span_count (scan left right base index start) (base + at)
      ≡ span_count (last_span base start index) (base + at)
unfolding scan
scan-before [] right base index start at h before = refl
scan-before (a ∷ left) [] base index start at h before = refl
scan-before (a ∷ left) (b ∷ right) base index start at h before =
    let next = next_start (a != b) index start in
    let elsewhere : (at == index) ≡ false = ground arith in
    span_count-append (ended_span (a != b) base start index) _ (base + at)
    ∙ ap (λ (m : ℕ). span_count (ended_span (a != b) base start index) (base + at) + m)
        (scan-before left right base (index + 1) next at (next_start-IsOpen (a != b) index start h)
          (omega arith))
    ∙ round-lem (a != b) base index start at h
    ∙ rw elsewhere (omega arith)

ended-behind :
    (t : Bool) (base index : ℕ) (start : Option ℕ) (i : ℕ)
    → span_count (ended_span t base start index) (base + (index + i)) ≡ 0
ended-behind true base index start i = refl
ended-behind false base index start i = before-round base index start i

-- Behind the index they have the offsets where the strings differ, each in one range.
scan-count :
    (left right : Bytes) (base index : ℕ) (start : Option ℕ) (i : ℕ)
    → IsOpen start index
    → span_count (scan left right base index start) (base + (index + i)) ≡ differs_at left right i
unfolding scan
scan-count [] right base index start i h = before-round base index start i
scan-count (a ∷ left) [] base index start i h = before-round base index start i
scan-count (a ∷ left) (b ∷ right) base index start zero h =
    let next = next_start (a != b) index start in
    let here : index + 0 ≡ index = omega arith in
    let same : (index == index) ≡ true = ==_refl index in
    let none_yet : span_count (last_span base start index) (base + index) ≡ 0 =
      ap (λ (m : ℕ). span_count (last_span base start index) (base + m)) (sym here)
      ∙ before-round base index start 0 in
    ap (λ (m : ℕ). span_count (scan (a ∷ left) (b ∷ right) base index start) (base + m)) here
    ∙ span_count-append (ended_span (a != b) base start index) _ (base + index)
    ∙ ap (λ (m : ℕ). span_count (ended_span (a != b) base start index) (base + index) + m)
        (scan-before left right base (index + 1) next index
          (next_start-IsOpen (a != b) index start h) (omega arith))
    ∙ round-lem (a != b) base index start index h
    ∙ rw (none_yet, same) (omega arith)
scan-count (a ∷ left) (b ∷ right) base index start (suc i) h =
    let next = next_start (a != b) index start in
    let there : index + suc i ≡ index + 1 + i = omega arith in
    let nothing : 0 + differs_at left right i ≡ differs_at left right i = omega arith in
    span_count-append (ended_span (a != b) base start index) _ (base + (index + suc i))
    ∙ ap₂ ◌+◌ (ended-behind (a != b) base index start (suc i)) (
        ap (λ (m : ℕ). span_count (scan left right base (index + 1) next) (base + m)) there
        ∙ scan-count left right base (index + 1) next i (next_start-IsOpen (a != b) index start h))
    ∙ nothing

round-bytes :
    (t : Bool) (base index : ℕ) (start : Option ℕ)
    → IsOpen start index
    → counted_bytes (ended_span t base start index)
        + counted_bytes (last_span base (next_start t index start) (index + 1))
      ≡ counted_bytes (last_span base start index) + (if t then 1 else 0)
round-bytes true base index none h = omega arith
round-bytes true base index (some start) h = omega arith
round-bytes false base index none h = omega arith
round-bytes false base index (some start) h = omega arith

differing_bytes-cons :
    (a b : ℕ) (left right : Bytes)
    → length (differing_bytes (a ∷ left) (b ∷ right))
      ≡ (if a != b then 1 else 0) + length (differing_bytes left right)
unfolding differing_bytes
differing_bytes-cons a b left right = elim (Bool-cases (a != b)) [
  | inl e ↦ rw e (omega arith)
  | inr e ↦ rw e (omega arith)
]

scan-bytes :
    (left right : Bytes) (base index : ℕ) (start : Option ℕ)
    → IsOpen start index
    → counted_bytes (scan left right base index start)
      ≡ counted_bytes (last_span base start index) + length (differing_bytes left right)
unfolding scan differing_bytes
scan-bytes [] right base index start h = omega arith
scan-bytes (a ∷ left) [] base index start h = omega arith
scan-bytes (a ∷ left) (b ∷ right) base index start h =
    let next = next_start (a != b) index start in
    let rest =
      scan-bytes left right base (index + 1) next (next_start-IsOpen (a != b) index start h) in
    let appended =
      counted_bytes-append (ended_span (a != b) base start index)
        (scan left right base (index + 1) next) in
    let moved = round-bytes (a != b) base index start h in
    let counted = differing_bytes-cons a b left right in
    appended
    ∙ omega (arith, rest, moved)
    ∙ sym (ap (λ (m : ℕ). counted_bytes (last_span base start index) + m) counted)

differs_at-equal :
    (left right : Bytes)
    → length left ≡ length right
    → ((i : ℕ) → differs_at left right i ≡ 0)
    → left ≡ right
differs_at-equal [] [] size same = refl
differs_at-equal [] (b ∷ right) size same = absurd (omega arith)
differs_at-equal (a ∷ left) [] size same = absurd (omega arith)
differs_at-equal (a ∷ left) (b ∷ right) size same =
    ap₂ ◌∷◌ (equal_byte (same 0)) (differs_at-equal left right (omega arith) (λ i. same (suc i)))
  where
    equal_byte : differs_at (a ∷ []) (b ∷ []) 0 ≡ 0 → a ≡ b
    equal_byte e = ground arith

scan-same : (xs : Bytes) (base index : ℕ) → scan xs xs base index none ≡ []
unfolding scan
scan-same [] base index = refl
scan-same (x ∷ xs) base index =
    let e : (x != x) ≡ false = ground arith in rw e (scan-same xs base (index + 1))

is_empty-nil : (spans : List Span) → is_empty spans ≡ true → spans ≡ []
is_empty-nil [] e = refl
is_empty-nil (span ∷ spans) e = absurd (ground arith)

scan-is_empty :
    (left right : Bytes) (base : ℕ)
    → length left ≡ length right
    → (is_empty (scan left right base 0 none) ≡ true) ↔ (left ≡ right)
scan-is_empty left right base size = (
  (λ e. differs_at-equal left right size (λ i.
      sym (scan-count left right base 0 none i tt)
      ∙ ap (λ (spans : List Span). span_count spans (base + (0 + i)))
          (is_empty-nil (scan left right base 0 none) e))),
  (λ e.
      ap (λ (ys : Bytes). is_empty (scan left ys base 0 none)) (sym e)
      ∙ ap is_empty (scan-same left base 0)),
)

ranges-ok :
    (left right : Bytes) (base : ℕ)
    → length left ≡ length right
    → difference_ranges left right base ≡ ok (scan left right base 0 none)
unfolding difference_ranges
ranges-ok left right base size =
    let e : (length left != length right) ≡ false = ground arith in rw e refl

-- For two strings of the same length the ranges are found, every offset where the strings differ
-- lies in exactly one range and every other offset in none, and the ranges count as many bytes as
-- differ.
pub difference_ranges-exact :
    (left right : Bytes) (base : ℕ)
    → length left ≡ length right
    → (ranges : List Span) × (difference_ranges left right base ≡ ok ranges)
      × ((i : ℕ) → span_count ranges (base + i) ≡ differs_at left right i)
      × (counted_bytes ranges ≡ length (differing_bytes left right))
difference_ranges-exact left right base size = (
  scan left right base 0 none,
  ranges-ok left right base size,
  (λ i.
      let e : i ≡ 0 + i = omega arith in
      ap (λ (m : ℕ). span_count (scan left right base 0 none) (base + m)) e
      ∙ scan-count left right base 0 none i tt),
  scan-bytes left right base 0 none tt ∙ omega arith,
)

-- For two strings of the same length there is a report, which says that they are bit-identical
-- exactly where they are equal, and whose number of differing bytes is the one that its ranges
-- count.
pub reference_comparison_report-identical :
    (actual reference : Bytes) (base stored_checksum : ℕ)
    → length actual ≡ length reference
    → (report : Comparison) × (reference_comparison_report actual reference base stored_checksum
        ≡ ok report)
      × ((report.bit_identical ≡ true) ↔ (actual ≡ reference))
      × (report.differing_byte_count ≡ counted_bytes report.difference_spans)
unfolding reference_comparison_report
reference_comparison_report-identical actual reference base stored_checksum size = (
  comparison_of actual reference stored_checksum (scan actual reference base 0 none),
  ap
      (λ (ranges : Result InspectFault (List Span)).
        let x : Result InspectFault Comparison = elim ranges [
          | ok ranges ↦ ok (comparison_of actual reference stored_checksum ranges)
          | err e ↦ err e
        ] in
        x)
      (ranges-ok actual reference base size),
  scan-is_empty actual reference base size,
  omega (arith, scan-bytes actual reference base 0 none tt),
)
