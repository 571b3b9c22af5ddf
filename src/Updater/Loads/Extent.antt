-- ===== src/Updater/Loads/Extent.antt =====
-- What the extent that `validate_load_ranges` returns says of the addresses.
use kb.Base.{
  ℕ, ◌+◌, ◌-◌, ◌≤◌, ◌<◌, ◌≡◌, refl, sym, ap, subst, ◌∙◌, ◌⊎◌, inl, inr, true, ◌&&◌, Option, none,
  some, List, [], ◌∷◌, arith, leb, ◌==◌, leb→le, ==_iff, and-eq-true, lt-or-le, Result, ok, err,
}
use Prim.Native.Nat.{max}
use kb.Updater.Regions.{PlanFault, plan_error}
use kb.Updater.Operations.{require}
use kb.Updater.Applied.{require-eq-ok, require-eq-ok_value}
use kb.Updater.Loads.{
  LoadLine, collect_ranges, sort_ranges, is_chain, max_end, start_of, sorted_extent,
  validate_load_ranges,
}
use kb.Updater.Loads.Ranges.{
  covers, cover_count, range_count, Inside, collect_ranges-Collected, range_count-sort, sort-Inside,
}

covers_before : (start end address : ℕ) → address < start → covers start end address ≡ 0
covers_before start end address h = ground arith

covers_after : (start end address : ℕ) → end ≤ address → covers start end address ≡ 0
covers_after start end address h = ground arith

covers_in : (start end address : ℕ) → start ≤ address → address < end → covers start end address ≡ 1
covers_in start end address h h' = ground arith

covers-le : (start end address : ℕ) → covers start end address ≤ 1
covers-le start end address = ground arith

linked :
    (end start' end' : ℕ) (rest : List (ℕ × ℕ))
    → (leb end start' && is_chain ((start', end') ∷ rest)) ≡ true
    → (end ≤ start') × (is_chain ((start', end') ∷ rest) ≡ true)
linked end start' end' rest h =
    let (first, more) = and-eq-true (leb end start') (is_chain ((start', end') ∷ rest)) h in
    (leb→le end start' first, more)

-- In a chain the ranges behind the first begin where it ends.
count_behind :
    (low high start end : ℕ) (rest : List (ℕ × ℕ)) (address : ℕ)
    → is_chain ((start, end) ∷ rest) ≡ true
    → Inside low high rest
    → address < end
    → range_count rest address ≡ 0
count_behind low high start end [] address chain inside h = refl
count_behind low high start end ((start', end') ∷ rest) address chain (a, b, c, inside) h =
    let (order, more) = linked end start' end' rest chain in
    omega (
      arith,
      covers_before start' end' address (omega arith),
      count_behind low high start' end' rest address more inside (omega arith),
    )

chain_tail :
    (start end : ℕ) (rest : List (ℕ × ℕ))
    → is_chain ((start, end) ∷ rest) ≡ true
    → is_chain rest ≡ true
chain_tail start end [] chain = refl
chain_tail start end ((start', end') ∷ rest) chain = (linked end start' end' rest chain).1

range_count-le :
    (low high : ℕ) (ranges : List (ℕ × ℕ)) (address : ℕ)
    → is_chain ranges ≡ true
    → Inside low high ranges
    → range_count ranges address ≤ 1
range_count-le low high [] address chain inside = omega arith
range_count-le low high ((start, end) ∷ rest) address chain (a, b, c, inside) =
    elim (lt-or-le address end) [
      | inl below ↦ omega (
        arith,
        covers-le start end address,
        count_behind low high start end rest address chain inside below,
      )
      | inr past ↦ omega (
        arith,
        covers_after start end address past,
        range_count-le low high rest address (chain_tail start end rest chain) inside,
      )
    ]

-- Every address that is covered is in the extent.
range_count-bounds :
    (low high : ℕ) (ranges : List (ℕ × ℕ)) (address : ℕ)
    → Inside low high ranges
    → (range_count ranges address ≡ 0) ⊎ ((low ≤ address) × (address < max_end ranges))
range_count-bounds low high [] address inside = inl refl
range_count-bounds low high ((start, end) ∷ rest) address (a, b, c, inside) =
    elim (lt-or-le address start) [
      | inl below ↦ elim (range_count-bounds low high rest address inside) [
        | inl none_left ↦ inl (omega (arith, covers_before start end address below, none_left))
        | inr (over, under) ↦ inr (over, omega arith)
      ]
      | inr over ↦ elim (lt-or-le address end) [
        | inl under ↦ inr (omega arith, omega arith)
        | inr past ↦ elim (range_count-bounds low high rest address inside) [
          | inl none_left ↦ inl (omega (arith, covers_after start end address past, none_left))
          | inr (over', under) ↦ inr (over', omega arith)
        ]
      ]
    ]

max_end-le : (low high : ℕ) (ranges : List (ℕ × ℕ)) → Inside low high ranges → max_end ranges ≤ high
max_end-le low high [] inside = omega arith
max_end-le low high ((start, end) ∷ rest) (a, b, c, inside) =
    omega (arith, max_end-le low high rest inside)

first_covered :
    (low high start : ℕ) (ranges : List (ℕ × ℕ))
    → start_of ranges ≡ some start
    → Inside low high ranges
    → (1 ≤ range_count ranges start) × (start < max_end ranges)
first_covered low high start [] found inside = cc
first_covered low high start ((start', end) ∷ rest) found (a, b, c, inside) =
    let same : start' ≡ start = cc in
    (omega (arith, covers_in start' end start (omega arith) (omega arith)), omega arith)

last_covered :
    (low high : ℕ) (ranges : List (ℕ × ℕ))
    → 0 < max_end ranges
    → Inside low high ranges
    → 1 ≤ range_count ranges (max_end ranges - 1)
last_covered low high [] positive inside = absurd (omega arith)
last_covered low high ((start, end) ∷ rest) positive (a, b, c, inside) =
    elim (lt-or-le end (max_end rest)) [
      | inl below ↦
          subst (λ m. 1 ≤ covers start end (m - 1) + range_count rest (m - 1))
            (larger end (max_end rest) below)
            (omega (arith, last_covered low high rest (omega arith) inside))
      | inr above ↦
          subst (λ m. 1 ≤ covers start end (m - 1) + range_count rest (m - 1))
            (larger' end (max_end rest) above)
            (omega (arith, covers_in start end (end - 1) (omega arith) (omega arith)))
    ]
  where
    larger : (m n : ℕ) → m < n → n ≡ max m n
    larger m n h = omega arith

    larger' : (m n : ℕ) → n ≤ m → m ≡ max m n
    larger' m n h = omega arith

-- The extent, by how often an address, the first one and the last one are covered.
abbrev Covered : ℕ → ℕ → ℕ → ℕ → ℕ → ℕ → ℕ → Type 0
Covered count first last vma maximum extent address =
    (extent ≤ maximum)
    × (count ≤ 1)
    × ((count ≡ 0) ⊎ ((vma ≤ address) × (address < vma + extent)))
    × (1 ≤ first)
    × (1 ≤ last)

chain-Covered :
    (ranges : List (ℕ × ℕ)) (vma maximum address : ℕ)
    → start_of ranges ≡ some vma
    → is_chain ranges ≡ true
    → Inside vma (vma + maximum) ranges
    → Covered
        (range_count ranges address)
        (range_count ranges vma)
        (range_count ranges (vma + (max_end ranges - vma) - 1))
        vma
        maximum
        (max_end ranges - vma)
        address
chain-Covered ranges vma maximum address start chain inside =
    let (first, positive) = first_covered vma (vma + maximum) vma ranges start inside in
    let last = last_covered vma (vma + maximum) ranges (omega arith) inside in
    (
      omega (arith, max_end-le vma (vma + maximum) ranges inside),
      range_count-le vma (vma + maximum) ranges address chain inside,
      elim (range_count-bounds vma (vma + maximum) ranges address inside) [
        | inl nothing ↦ inl nothing
        | inr (over, under) ↦ inr (over, omega arith)
      ],
      first,
      subst (λ a. 1 ≤ range_count ranges (a - 1)) (back positive) last,
    )
  where
    back : vma < max_end ranges → max_end ranges ≡ vma + (max_end ranges - vma)
    back positive = omega arith

-- The guards behind the sort.
sorted_extent-eq-ok :
    (vma extent : ℕ) (ranges : List (ℕ × ℕ)) (o : Option ℕ)
    → start_of ranges ≡ o
    → (elim o [
      | none ↦ err plan_error
      | some start ↦ require (start == vma) (require (is_chain ranges) (ok (max_end ranges - vma)))
    ])
      ≡ ok extent
    → (start_of ranges ≡ some vma) × (is_chain ranges ≡ true) × (max_end ranges - vma ≡ extent)
sorted_extent-eq-ok vma extent ranges none found h = cc
sorted_extent-eq-ok vma extent ranges (some start) found h =
    let (at, more) = require-eq-ok (start == vma) _ extent h in
    let (chain, value) = require-eq-ok_value (is_chain ranges) (max_end ranges - vma) extent more in
    (found ∙ ap some ((==_iff start vma).0 at), chain, value)

-- The extent that an accepted file has: it is no longer than the maximum, every address is loaded
-- at most once and only inside the extent, and its first and its last address are loaded.
pub validate_load_ranges-covers :
    (lines : List LoadLine) (expected_vma maximum extent address : ℕ)
    → validate_load_ranges lines expected_vma maximum ≡ ok extent
    → (extent ≤ maximum)
      × (cover_count lines address ≤ 1)
      × ((cover_count lines address ≡ 0)
          ⊎ ((expected_vma ≤ address) × (address < expected_vma + extent)))
      × (1 ≤ cover_count lines expected_vma)
      × (1 ≤ cover_count lines (expected_vma + extent - 1))
unfolding validate_load_ranges sorted_extent
validate_load_ranges-covers lines vma maximum extent address h =
    collected (collect_ranges vma maximum lines) refl h
  where
    collected :
        (r : Result PlanFault (List (ℕ × ℕ)))
        → collect_ranges vma maximum lines ≡ r
        → (elim r [ err e ↦ err e | ok ranges ↦ sorted_extent vma (sort_ranges ranges) ])
          ≡ ok extent
        → Covered
            (cover_count lines address)
            (cover_count lines vma)
            (cover_count lines (vma + extent - 1))
            vma
            maximum
            extent
            address
    collected (err e) made g = cc
    collected (ok ranges) made g =
        let sorted = sort_ranges ranges in
        let (start, chain, value) =
          sorted_extent-eq-ok vma extent sorted (start_of sorted) refl g in
        let same : (a : ℕ) → range_count sorted a ≡ cover_count lines a = λ a.
          range_count-sort ranges a
          ∙ sym (collect_ranges-Collected vma maximum lines ranges a made).1 in
        let inside =
          sort-Inside vma (vma + maximum) ranges
            (collect_ranges-Collected vma maximum lines ranges 0 made).0 in
        subst
          (λ n.
            Covered n (cover_count lines vma) (cover_count lines (vma + extent - 1)) vma maximum
              extent address)
          (same address)
          (subst
            (λ n.
              Covered (range_count sorted address) n (cover_count lines (vma + extent - 1)) vma
                maximum extent address)
            (same vma)
            (subst
              (λ n.
                Covered (range_count sorted address) (range_count sorted vma) n vma maximum extent
                  address)
              (same (vma + extent - 1))
              (subst
                (λ x.
                  Covered (range_count sorted address) (range_count sorted vma)
                    (range_count sorted (vma + x - 1)) vma maximum x address)
                value (chain-Covered sorted vma maximum address start chain inside))))
