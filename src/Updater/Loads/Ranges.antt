-- ===== src/Updater/Loads/Ranges.antt =====
-- The ranges of `validate_load_ranges`: collected and sorted, they cover what the lines cover.
use kb.Base.{
  ℕ, ◌+◌, ◌≤◌, ◌<◌, ◌≡◌, refl, ap, subst, ◌∙◌, ◌⊎◌, inl, inr, Bool, true, false, ◌&&◌, List, [],
  ◌∷◌, arith, ltb, leb, ◌==◌, if◌then◌else◌, ==_iff, Result, ok, err,
}
use kb.Updater.Regions.{PlanFault}
use kb.Updater.Applied.{require-eq-ok}
use kb.Updater.Loads.{LoadLine, collect_ranges, is_before, insert_range, sort_ranges}

abbrev pub covers : ℕ → ℕ → ℕ → ℕ
covers start end address = if leb start address && ltb address end then 1 else 0

-- How many LOAD lines put a byte at an address.
abbrev pub cover_count : List LoadLine → ℕ → ℕ
cover_count [] address = 0
cover_count (line ∷ lines) address =
    covers line.physical (line.physical + line.file_size) address + cover_count lines address

-- The same of ranges.
abbrev pub range_count : List (ℕ × ℕ) → ℕ → ℕ
range_count [] address = 0
range_count ((start, end) ∷ ranges) address = covers start end address + range_count ranges address

-- Ranges that are not empty and lie between two bounds.
abbrev pub Inside : ℕ → ℕ → List (ℕ × ℕ) → Type 0
Inside low high [] = Unit
Inside low high ((start, end) ∷ ranges) =
    (low ≤ start) × (start < end) × (end ≤ high) × Inside low high ranges

-- What a branch that ends well says of its test.
if-eq-ok :
    {A : Type 0} (b : Bool) (r r' : Result PlanFault A) (y : A)
    → (if b then r else r') ≡ ok y
    → ((b ≡ true) × (r ≡ ok y)) ⊎ ((b ≡ false) × (r' ≡ ok y))
if-eq-ok true r r' y h = inl (refl, h)
if-eq-ok false r r' y h = inr (refl, h)

prepended :
    (range : ℕ × ℕ) (r : Result PlanFault (List (ℕ × ℕ))) (ranges : List (ℕ × ℕ))
    → (elim r [ ok rest ↦ ok (range ∷ rest) | err e ↦ err e ]) ≡ ok ranges
    → (rest : List (ℕ × ℕ)) × (r ≡ ok rest) × (range ∷ rest ≡ ranges)
prepended range (ok rest) ranges h = (rest, refl, cc)
prepended range (err e) ranges h = cc

covers_nothing : (start size address : ℕ) → size ≡ 0 → covers start (start + size) address ≡ 0
covers_nothing start size address e = ground arith

bounds_of :
    (start end low high : ℕ)
    → (ltb start end && leb low start && leb end high) ≡ true
    → (low ≤ start) × (start < end) × (end ≤ high)
bounds_of start end low high h = (ground arith, ground arith, ground arith)

-- The ranges lie in the extent and put the same bytes at every address.
abbrev pub Collected : ℕ → ℕ → List LoadLine → ℕ → List (ℕ × ℕ) → Type 0
Collected vma maximum lines address ranges =
    Inside vma (vma + maximum) ranges × (cover_count lines address ≡ range_count ranges address)

pub collect_ranges-Collected :
    (vma maximum : ℕ) (lines : List LoadLine) (ranges : List (ℕ × ℕ)) (address : ℕ)
    → collect_ranges vma maximum lines ≡ ok ranges
    → Collected vma maximum lines address ranges
unfolding collect_ranges
collect_ranges-Collected vma maximum [] ranges address h =
    subst (Collected vma maximum [] address) (empty h) (tt, refl)
  where
    empty : ◌≡◌ {A = Result PlanFault (List (ℕ × ℕ))} (ok []) (ok ranges) → [] ≡ ranges
    empty h = cc
collect_ranges-Collected vma maximum (line ∷ lines) ranges address h =
    let end = line.physical + line.file_size in
    let body = (require-eq-ok (leb line.file_size line.memory_size) _ ranges h).1 in
    elim (if-eq-ok (line.file_size == 0) (collect_ranges vma maximum lines) _ ranges body) [
      | inl (zero_size, rest) ↦
          let (inside, count) = collect_ranges-Collected vma maximum lines ranges address rest in
          (
            inside,
            omega (
              arith,
              count,
              covers_nothing line.physical line.file_size address
                  ((==_iff line.file_size 0).0 zero_size),
            ),
          )
      | inr (some_size, kept) ↦
          let (bounds, made) =
            require-eq-ok
              (ltb line.physical end && leb vma line.physical && leb end (vma + maximum)) _ ranges
              kept in
          let (rest, collected, whole) =
            prepended (line.physical, end) (collect_ranges vma maximum lines) ranges made in
          let (inside, count) = collect_ranges-Collected vma maximum lines rest address collected in
          let limits = bounds_of line.physical end vma (vma + maximum) bounds in
          subst (Collected vma maximum (line ∷ lines) address) whole (
            (limits.0, limits.1, limits.2, inside),
            ap (λ (n : ℕ). covers line.physical end address + n) count,
          )
    ]

range_count-insert :
    (start end : ℕ) (ranges : List (ℕ × ℕ)) (address : ℕ)
    → range_count (insert_range (start, end) ranges) address
      ≡ covers start end address + range_count ranges address
range_count-insert start end [] address = refl
range_count-insert start end ((start', end') ∷ rest) address =
    either (is_before (start, end) (start', end'))
      (omega (arith, range_count-insert start end rest address))
  where
    either :
        (b : Bool)
        → covers start' end' address + range_count (insert_range (start, end) rest) address
          ≡ covers start end address + (covers start' end' address + range_count rest address)
        → range_count
            (if b
              then (start, end) ∷ (start', end') ∷ rest
              else (start', end') ∷ insert_range (start, end) rest)
            address
          ≡ covers start end address + (covers start' end' address + range_count rest address)
    either true e = refl
    either false e = e

insert-Inside :
    (low high start end : ℕ) (ranges : List (ℕ × ℕ))
    → low ≤ start
    → start < end
    → end ≤ high
    → Inside low high ranges
    → Inside low high (insert_range (start, end) ranges)
insert-Inside low high start end [] a b c inside = (a, b, c, tt)
insert-Inside low high start end ((start', end') ∷ rest) a b c (a', b', c', inside) =
    either (is_before (start, end) (start', end'))
      (insert-Inside low high start end rest a b c inside)
  where
    either :
        (b : Bool)
        → Inside low high (insert_range (start, end) rest)
        → Inside low high (
            if b
            then (start, end) ∷ (start', end') ∷ rest
            else (start', end') ∷ insert_range (start, end) rest)
    either true more = (a, b, c, (a', b', c', inside))
    either false more = (a', b', c', more)

pub range_count-sort :
    (ranges : List (ℕ × ℕ)) (address : ℕ)
    → range_count (sort_ranges ranges) address ≡ range_count ranges address
range_count-sort [] address = refl
range_count-sort ((start, end) ∷ ranges) address =
    range_count-insert start end (sort_ranges ranges) address
    ∙ ap (λ (n : ℕ). covers start end address + n) (range_count-sort ranges address)

pub sort-Inside :
    (low high : ℕ) (ranges : List (ℕ × ℕ))
    → Inside low high ranges
    → Inside low high (sort_ranges ranges)
sort-Inside low high [] inside = tt
sort-Inside low high ((start, end) ∷ ranges) (a, b, c, inside) =
    insert-Inside low high start end (sort_ranges ranges) a b c (sort-Inside low high ranges inside)
