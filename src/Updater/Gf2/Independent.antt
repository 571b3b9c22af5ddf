-- ===== src/Updater/Gf2/Independent.antt =====
-- Columns that no combination cancels: the elimination of `gf2_solve` finds rank 32.
use kb.Base.{
  ℕ, zero, suc, ◌+◌, ◌-◌, ◌%◌, ◌^◌, ◌≤◌, ◌<◌, bit_xor, ◌≡◌, refl, sym, ap, ap₂, subst, ◌∙◌, inl,
  inr, Option, none, some, List, [], ◌∷◌, ◌++◌, append_assoc, arith, Option-cases, length, set,
  replicate, length-append, bit_xor_longer, Result, ok,
}
use native.Mathlib.Nat.{pow-suc, pow-le-pow_right, one-le-pow}
use kb.Updater.Regions.{PlanFault}
use kb.Updater.Gf2.{Basis, entry, bit_length, eliminate, eliminate_all, gf2_solve}
use kb.Updater.Gf2.Columns.{combine, combine-bit_xor, pivot_bounds, pivot-lt}
use kb.Updater.Gf2.Basis.{IsBasis, set-IsBasis, entry-set, entry-replicate, empty-IsBasis}
use kb.Updater.Gf2.Solved.{with_rank, gf2_solve-lem}
use kb.Updater.Gf2.Elimination.{shorter, column_single}

-- Only the empty combination adds up to 0.
unfoldable pub IsIndependent : List ℕ → Type 0
IsIndependent columns = (c : ℕ) → c < 2 ^ 32 → combine columns c ≡ 0 → c ≡ 0

-- The combinations of the basis use no column from an index on.
abbrev Uses : Basis → ℕ → Type 0
Uses basis index =
    (pivot value combination : ℕ)
    → entry basis pivot ≡ some (value, combination)
    → combination < 2 ^ index

set-Uses :
    (basis : Basis) (index pivot value combination : ℕ)
    → Uses basis index
    → combination < 2 ^ suc index
    → Uses (set basis pivot (some (value, combination))) (suc index)
set-Uses basis index pivot value combination uses below p v c found =
    elim (entry-set basis pivot p (some (value, combination))) [
      | inl (here, shows) ↦ subst (λ x. x < 2 ^ suc index) (same (sym shows ∙ found)) below
      | inr kept ↦ omega (arith, pow-suc 2 index, uses p v c (sym kept ∙ found))
    ]
  where
    same : ◌≡◌ {A = Option (ℕ × ℕ)} (some (value, combination)) (some (v, c)) → combination ≡ c
    same e = cc

-- The elimination of one column, the one at the index, ends with one more entry.
abbrev Grows : List ℕ → ℕ → ℕ → Result PlanFault (Basis × ℕ) → Type 0
Grows columns rank index r =
    (basis : Basis) × (r ≡ ok (basis, suc rank))
    × IsBasis columns basis (suc rank)
    × Uses basis (suc index)

word_power : (index : ℕ) → index < 32 → 2 ^ suc index ≤ 2 ^ 32
word_power index inside = pow-le-pow_right {n = 2} (omega arith) inside

eliminate-Grows :
    (columns : List ℕ) (index fuel : ℕ) (basis : Basis) (rank v combination : ℕ)
    → IsIndependent columns
    → index < 32
    → IsBasis columns basis rank
    → Uses basis index
    → v < 2 ^ fuel
    → fuel ≤ 32
    → combine columns combination ≡ v
    → 2 ^ index ≤ combination
    → combination < 2 ^ suc index
    → Grows columns rank index (eliminate fuel basis rank v combination)
unfolding IsIndependent
eliminate-Grows columns index fuel basis rank zero combination free inside good uses small word
      combined own short =
    absurd (
      omega (
        arith,
        free combination (omega (arith, word_power index inside)) combined,
        one-le-pow index 2 (omega arith),
      ))
eliminate-Grows columns index zero basis rank (suc v) combination free inside good uses small word
      combined own short =
    absurd (omega arith)
eliminate-Grows columns index (suc fuel) basis rank (suc v) combination free inside good uses small
      word combined own short =
    elim (Option-cases (entry basis (bit_length (suc v) - 1))) [
      | inl empty ↦
          rw (eliminate, empty)
            (
              set basis (bit_length (suc v) - 1) (some (suc v, combination)),
              refl,
              set-IsBasis columns basis rank (bit_length (suc v) - 1) (suc v) combination good empty
                  (omega (arith, pivot-lt fuel v small))
                  (record {
                    at_least = (pivot_bounds v).0;
                    below = (pivot_bounds v).1;
                    combined = combined;
                    is_word = omega (arith, word_power index inside);
                  }),
              set-Uses basis index (bit_length (suc v) - 1) (suc v) combination uses short,
            )
      | inr ((value, columns'), found) ↦
          let is = good.pivots (bit_length (suc v) - 1) value columns' found in
          let longer =
            bit_xor_longer index combination columns' own short
              (uses (bit_length (suc v) - 1) value columns' found) in
          rw (eliminate, found)
            (eliminate-Grows columns index fuel basis rank (bit_xor (suc v) value)
              (bit_xor combination columns') free inside good uses
              (shorter fuel v value columns' small is) (omega arith)
              (combine-bit_xor columns combination columns' ∙ ap₂ bit_xor combined is.combined)
              longer.0 longer.1)
    ]

eliminate_all_rank :
    (columns before after : List ℕ) (basis : Basis) (rank index : ℕ)
    → IsIndependent columns
    → before ++ after ≡ columns
    → index ≡ length before
    → length columns ≡ 32
    → IsBasis columns basis rank
    → Uses basis index
    → (basis' : Basis) × (eliminate_all basis rank index after ≡ ok (basis', rank + length after))
eliminate_all_rank columns before [] basis rank index free parts at full good uses =
    (basis, ap (λ (n : ℕ). ok (basis, n)) (omega arith))
eliminate_all_rank columns before (column ∷ after) basis rank index free parts at full good uses =
    let inside : index < 32 =
      omega (arith, at, full, ap length parts, length-append before (column ∷ after)) in
    let (basis', ends, good', uses') =
      eliminate-Grows columns index 32 basis rank (column % 2 ^ 32) (2 ^ index) free inside good
        uses (omega arith) (omega arith) (column_single columns before after column index parts at)
        (omega arith) (omega (arith, pow-suc 2 index, one-le-pow index 2 (omega arith))) in
    let (basis'', rest) =
      eliminate_all_rank columns (before ++ (column ∷ [])) after basis' (suc rank) (suc index) free
        (append_assoc before (column ∷ []) after ∙ parts)
        (omega (arith, length-append before (column ∷ []), at)) full good' uses' in
    (basis'', rw (eliminate_all, ends) (rest ∙ ap (λ (n : ℕ). ok (basis'', n)) (omega arith)))

same_rank :
    (b b' : Basis) (m n : ℕ)
    → ◌≡◌ {A = Result PlanFault (Basis × ℕ)} (ok (b, m)) (ok (b', n))
    → m ≡ n
same_rank b b' m n e = cc

-- With independent columns every target has a solution, and the rank is 32.
pub gf2_solve_independent :
    (columns : List ℕ) (target : ℕ)
    → length columns ≡ 32
    → IsIndependent columns
    → (solution : ℕ) × (gf2_solve columns target ≡ ok (solution, 32))
gf2_solve_independent columns target full free =
    let (basis, rank, ends, run) = gf2_solve-lem columns full in
    let (basis', ends') =
      eliminate_all_rank columns [] columns (replicate 32 none) 0 0 free refl refl full
        (empty-IsBasis columns)
        (λ p v c found. absurd (none_found (sym (entry-replicate 32 p) ∙ found))) in
    let (r, is, solves) = run target in
    let all : rank ≡ 32 =
      omega (arith, same_rank basis basis' rank (0 + length columns) (sym ends ∙ ends'), full) in
    let (solution, found) = solves.complete all in (solution, is ∙ ap₂ with_rank all found)
  where
    none_found : {A : Type 0} {a : A} → none ≡ some a → ⊥
    none_found e = cc
