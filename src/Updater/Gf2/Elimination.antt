-- ===== src/Updater/Gf2/Elimination.antt =====
-- The elimination of `gf2_solve`: it ends, and keeps a basis of combinations of the columns.
use kb.Base.{
  ℕ, zero, suc, ◌-◌, ◌%◌, ◌^◌, ◌≤◌, ◌<◌, bit_xor, ◌≡◌, refl, sym, ap, ap₂, subst, ◌∙◌, inl, inr,
  some, List, [], ◌∷◌, ◌++◌, append_assoc, arith, Option-cases, length, set, length-append,
  bit_xor-lt, bit_xor_same_length, Result, ok,
}
use native.Mathlib.Nat.{pow-suc, pow-le-pow_right}
use kb.Updater.Regions.{PlanFault}
use kb.Updater.Gf2.{Basis, entry, bit_length, eliminate, eliminate_all}
use kb.Updater.Gf2.Columns.{combine, combine-bit_xor, combine_single, pivot_bounds, pivot-lt}
use kb.Updater.Gf2.Basis.{IsPivot, IsBasis, set-IsBasis}

-- A step of either loop: the highest digit goes.
pub shorter :
    {columns : List ℕ} (fuel v value combination : ℕ)
    → suc v < 2 ^ suc fuel
    → IsPivot columns (bit_length (suc v) - 1) value combination
    → bit_xor (suc v) value < 2 ^ fuel
shorter fuel v value combination small is = omega (
  arith,
  bit_xor_same_length (bit_length (suc v) - 1) (suc v) value (pivot_bounds v).0 (pivot_bounds v).1
      is.at_least is.below,
  pow-le-pow_right {n = 2} (omega arith) (pivot-lt fuel v small),
)

-- The basis and the rank that the elimination ends with.
abbrev pub Ends : List ℕ → Result PlanFault (Basis × ℕ) → Type 0
Ends columns r = (basis : Basis) × (rank : ℕ) × (r ≡ ok (basis, rank)) × IsBasis columns basis rank

pub eliminate-Ends :
    (columns : List ℕ) (fuel : ℕ) (basis : Basis) (rank v combination : ℕ)
    → IsBasis columns basis rank
    → v < 2 ^ fuel
    → fuel ≤ 32
    → combine columns combination ≡ v
    → combination < 2 ^ 32
    → Ends columns (eliminate fuel basis rank v combination)
eliminate-Ends columns zero basis rank zero combination good small word combined short =
    (basis, rank, refl, good)
eliminate-Ends columns zero basis rank (suc v) combination good small word combined short =
    absurd (omega arith)
eliminate-Ends columns (suc fuel) basis rank zero combination good small word combined short =
    (basis, rank, refl, good)
eliminate-Ends columns (suc fuel) basis rank (suc v) combination good small word combined short =
    elim (Option-cases (entry basis (bit_length (suc v) - 1))) [
      | inl empty ↦
          rw (eliminate, empty)
            (
              set basis (bit_length (suc v) - 1) (some (suc v, combination)),
              suc rank,
              refl,
              set-IsBasis columns basis rank (bit_length (suc v) - 1) (suc v) combination good empty
                  (omega (arith, pivot-lt fuel v small))
                  (record {
                    at_least = (pivot_bounds v).0;
                    below = (pivot_bounds v).1;
                    combined = combined;
                    is_word = short;
                  }),
            )
      | inr ((value, columns'), found) ↦
          let is = good.pivots (bit_length (suc v) - 1) value columns' found in
          rw (eliminate, found)
            (eliminate-Ends columns fuel basis rank (bit_xor (suc v) value)
              (bit_xor combination columns') good (shorter fuel v value columns' small is)
              (omega arith)
              (combine-bit_xor columns combination columns' ∙ ap₂ bit_xor combined is.combined)
              (bit_xor-lt 32 combination columns' short is.is_word))
    ]

-- The digit of an index selects the column at the index.
pub column_single :
    (columns before after : List ℕ) (column index : ℕ)
    → before ++ (column ∷ after) ≡ columns
    → index ≡ length before
    → combine columns (2 ^ index) ≡ column % 2 ^ 32
column_single columns before after column index parts at =
    subst (λ n. combine columns (2 ^ n) ≡ column % 2 ^ 32) (sym at)
      (subst (λ cs. combine cs (2 ^ length before) ≡ column % 2 ^ 32) parts
        (combine_single before after column))

pub power-lt : (n : ℕ) → n < 32 → 2 ^ n < 2 ^ 32
power-lt n below = ground (arith, pow-suc 2 n, pow-le-pow_right {n = 2} (omega arith) below)

pub eliminate_all-Ends :
    (columns before after : List ℕ) (basis : Basis) (rank index : ℕ)
    → before ++ after ≡ columns
    → index ≡ length before
    → length columns ≡ 32
    → IsBasis columns basis rank
    → Ends columns (eliminate_all basis rank index after)
eliminate_all-Ends columns before [] basis rank index parts at full good = (basis, rank, refl, good)
eliminate_all-Ends columns before (column ∷ after) basis rank index parts at full good =
    let (basis', rank', ends, good') =
      eliminate-Ends columns 32 basis rank (column % 2 ^ 32) (2 ^ index) good (omega arith)
        (omega arith) (column_single columns before after column index parts at)
        (power-lt index
          (omega (arith, at, full, ap length parts, length-append before (column ∷ after)))) in
    rw (eliminate_all, ends)
      (eliminate_all-Ends columns (before ++ (column ∷ [])) after basis' rank' (suc index)
        (append_assoc before (column ∷ []) after ∙ parts)
        (omega (arith, length-append before (column ∷ []), at)) full good')
