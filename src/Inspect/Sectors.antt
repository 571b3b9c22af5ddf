-- ===== src/Inspect/Sectors.antt =====
-- `non_erased_ranges` of tools/inspect_stock_flash.py and the sectors that its ranges hold.
use kb.Base.{
  ℕ, zero, suc, ◌+◌, ◌-◌, ◌/◌, ◌%◌, ◌≤◌, ◌<◌, ◌≡◌, refl, ap, ap₂, ◌∙◌, inl, inr, Bool, true, false,
  ◌&&◌, ◌||◌, not, Option, none, some, List, [], ◌∷◌, ◌++◌, arith, ltb, leb, ◌==◌, if◌then◌else◌,
  lt→ltb, not-ltb, replicate, slice, Bytes, eq_bytes, lt-or-le, rounds, Result, ok, err,
}
use kb.Inspect.Differences.{InspectFault, value_error, next_start}
use kb.Inspect.Manifest.{scan_bytes}

-- An entry of the list of ranges.
pub record SectorSpan : Type 0 where
  pub run_start : ℕ
  pub run_end : ℕ
  pub sector_count : ℕ

-- The run that ends at an offset.
abbrev pub last_run : Option ℕ → ℕ → List SectorSpan
last_run none offset = []
last_run (some start) offset =
    record { run_start = start; run_end = offset; sector_count = (offset - start) / scan_bytes }
    ∷ []

abbrev pub ended_run : Bool → Option ℕ → ℕ → List SectorSpan
ended_run true start offset = []
ended_run false start offset = last_run start offset

abbrev pub is_programmed : Bytes → ℕ → Bool
is_programmed image offset =
    not (eq_bytes (slice image offset scan_bytes) (replicate scan_bytes 0xff))

-- The loop from an offset on, with the sectors left.
unfoldable pub scan_sectors : Bytes → ℕ → ℕ → Option ℕ → List SectorSpan
scan_sectors image zero offset start = last_run start offset
scan_sectors image (suc rounds) offset start =
    let programmed = is_programmed image offset in
    ended_run programmed start offset
    ++ scan_sectors image rounds (offset + scan_bytes) (next_start programmed offset start)

unfoldable pub non_erased_ranges : Bytes → ℕ → ℕ → Result InspectFault (List SectorSpan)
non_erased_ranges image start end =
    if not (start % scan_bytes == 0) || not (end % scan_bytes == 0)
    then err value_error
    else ok (scan_sectors image ((end - start) / scan_bytes) start none)

abbrev has_place : SectorSpan → ℕ → ℕ
has_place span at = if leb span.run_start at && ltb at span.run_end then 1 else 0

-- How many ranges have an offset.
abbrev pub run_count : List SectorSpan → ℕ → ℕ
run_count [] at = 0
run_count (span ∷ spans) at = has_place span at + run_count spans at

-- 1 for a byte of a programmed sector, counted from an offset.
abbrev pub programmed_at : Bytes → ℕ → ℕ → ℕ → ℕ
programmed_at image zero offset k = 0
programmed_at image (suc rounds) offset k =
    let later = programmed_at image rounds (offset + scan_bytes) (k - scan_bytes) in
    if ltb k scan_bytes then (if is_programmed image offset then 1 else 0) else later

abbrev IsBegun : Option ℕ → ℕ → Type 0
IsBegun none offset = Unit
IsBegun (some start) offset = start ≤ offset

run_count-append :
    (xs ys : List SectorSpan) (at : ℕ) → run_count (xs ++ ys) at ≡ run_count xs at + run_count ys at
run_count-append [] ys at = omega arith
run_count-append (x ∷ xs) ys at = omega (arith, run_count-append xs ys at)

next_start-IsBegun :
    (t : Bool) (offset : ℕ) (start : Option ℕ)
    → IsBegun start offset
    → IsBegun (next_start t offset start) (offset + scan_bytes)
next_start-IsBegun true offset none h = omega arith
next_start-IsBegun true offset (some start) h = omega arith
next_start-IsBegun false offset start h = tt

sector-round :
    (t : Bool) (offset : ℕ) (start : Option ℕ) (at : ℕ)
    → IsBegun start offset
    → run_count (ended_run t start offset) at
        + run_count (last_run (next_start t offset start) (offset + scan_bytes)) at
      ≡ run_count (last_run start offset) at
        + (if leb offset at && (ltb at (offset + scan_bytes) && t) then 1 else 0)
sector-round true offset none at h = ground arith
sector-round true offset (some start) at h = ground arith
sector-round false offset none at h = ground arith
sector-round false offset (some start) at h = ground arith

last_run-behind :
    (offset : ℕ) (start : Option ℕ) (at : ℕ)
    → offset ≤ at
    → run_count (last_run start offset) at ≡ 0
last_run-behind offset none at h = refl
last_run-behind offset (some start) at h = ground arith

ended_run-behind :
    (t : Bool) (offset : ℕ) (start : Option ℕ) (at : ℕ)
    → offset ≤ at
    → run_count (ended_run t start offset) at ≡ 0
ended_run-behind true offset start at h = refl
ended_run-behind false offset start at h = last_run-behind offset start at h

scan_sectors-before :
    (image : Bytes) (rounds offset : ℕ) (start : Option ℕ) (at : ℕ)
    → IsBegun start offset
    → at < offset
    → run_count (scan_sectors image rounds offset start) at ≡ run_count (last_run start offset) at
unfolding scan_sectors
scan_sectors-before image zero offset start at h before = refl
scan_sectors-before image (suc rounds) offset start at h before =
    let t = is_programmed image offset in
    let elsewhere : leb offset at ≡ false = ground arith in
    run_count-append (ended_run t start offset) _ at
    ∙ ap (λ (m : ℕ). run_count (ended_run t start offset) at + m)
        (scan_sectors-before image rounds (offset + scan_bytes) (next_start t offset start) at
          (next_start-IsBegun t offset start h) (omega arith))
    ∙ sector-round t offset start at h
    ∙ rw elsewhere (omega arith)

scan_sectors-count :
    (image : Bytes) (rounds offset : ℕ) (start : Option ℕ) (k : ℕ)
    → IsBegun start offset
    → run_count (scan_sectors image rounds offset start) (offset + k)
      ≡ programmed_at image rounds offset k
unfolding scan_sectors
scan_sectors-count image zero offset start k h =
    last_run-behind offset start (offset + k) (omega arith)
scan_sectors-count image (suc rounds) offset start k h =
    let t = is_programmed image offset in
    let next = next_start t offset start in
    let begun = next_start-IsBegun t offset start h in
    let split =
      run_count-append (ended_run t start offset)
        (scan_sectors image rounds (offset + scan_bytes) next) (offset + k) in
    elim (lt-or-le k scan_bytes) [
      | inl here ↦
          let low : leb offset (offset + k) ≡ true = ground arith in
          let high : ltb (offset + k) (offset + scan_bytes) ≡ true = ground arith in
          split
          ∙ ap (λ (m : ℕ). run_count (ended_run t start offset) (offset + k) + m)
              (scan_sectors-before image rounds (offset + scan_bytes) next (offset + k) begun
                (omega arith))
          ∙ sector-round t offset start (offset + k) h
          ∙ rw
              (
                last_run-behind offset start (offset + k) (omega arith),
                low,
                high,
                lt→ltb k scan_bytes here,
              )
              (omega arith)
      | inr later ↦
          let there : offset + k ≡ offset + scan_bytes + (k - scan_bytes) = omega arith in
          split
          ∙ ap₂ ◌+◌ (ended_run-behind t offset start (offset + k) (omega arith)) (
              ap (run_count (scan_sectors image rounds (offset + scan_bytes) next)) there
              ∙ scan_sectors-count image rounds (offset + scan_bytes) next (k - scan_bytes) begun)
          ∙ rw (not-ltb k scan_bytes later) (omega arith)
    ]

-- For two aligned bounds the ranges are found, and an offset behind the start lies in exactly one
-- range where its sector is before the end and is programmed, and in no range elsewhere.
pub non_erased_ranges-exact :
    (image : Bytes) (start end : ℕ)
    → start % scan_bytes ≡ 0
    → end % scan_bytes ≡ 0
    → (ranges : List SectorSpan) × (non_erased_ranges image start end ≡ ok ranges)
      × ((k : ℕ)
          → run_count ranges (start + k) ≡ programmed_at image ((end - start) / scan_bytes) start k)
unfolding non_erased_ranges
non_erased_ranges-exact image start end first last = (
  scan_sectors image ((end - start) / scan_bytes) start none,
  rw (first, last) refl,
  (λ k. scan_sectors-count image ((end - start) / scan_bytes) start none k tt),
)
