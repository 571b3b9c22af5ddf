-- ===== src/Updater/Gf2/Solved.antt =====
-- What `gf2_solve` promises: it ends, its solution solves, and full rank solves every target.
use kb.Base.{
  ℕ, zero, suc, ◌-◌, ◌%◌, ◌^◌, ◌≤◌, ◌<◌, bit_xor, ◌≡◌, refl, sym, ap, ap₂, subst, ◌∙◌, ◌≢◌, ◌⊎◌,
  inl, inr, none, List, [], arith, ◌==◌, ==_iff, Bool-cases, Option-cases, length, replicate,
  zero-bit_xor, bit_xor-zero, bit_xor_self, bit_xor_swap, bit_xor-lt, Result, ok, err,
}
use kb.Updater.Regions.{PlanFault, plan_error, out_of_fuel}
use kb.Updater.Gf2.{Basis, entry, bit_length, eliminate_all, solve, gf2_solve}
use kb.Updater.Gf2.Columns.{combine, combine-bit_xor, combine-zero, pivot-lt}
use kb.Updater.Gf2.Basis.{IsBasis, filled_entries_full, empty-IsBasis}
use kb.Updater.Gf2.Elimination.{shorter, eliminate_all-Ends}

-- A solution adds up to the target, or the target is outside the span; with full rank it never is.
pub record Solves (columns : List ℕ) (rank target : ℕ) (r : Result PlanFault ℕ) : Type 0 where
  pub sound :
      (solution : ℕ) → r ≡ ok solution → (combine columns solution ≡ target) × (solution < 2 ^ 32)
  pub ended : r ≢ err out_of_fuel
  pub complete : rank ≡ 32 → (solution : ℕ) × (r ≡ ok solution)

ok-Solves :
    {columns : List ℕ} {rank target : ℕ} (solution : ℕ)
    → bit_xor (combine columns solution) 0 ≡ target
    → solution < 2 ^ 32
    → Solves columns rank target (ok solution)
ok-Solves {columns = columns} {target = target} solution left short = record {
  sound = λ s e.
      subst (λ x. (combine columns x ≡ target) × (x < 2 ^ 32)) (same s e)
        (sym (bit_xor-zero (combine columns solution)) ∙ left, short);
  ended = λ e. cc;
  complete = λ full. (solution, refl);
}
  where
    same : (s : ℕ) → ◌≡◌ {A = Result PlanFault ℕ} (ok solution) (ok s) → solution ≡ s
    same s e = cc

outside-Solves :
    {columns : List ℕ} {rank target : ℕ} → rank ≢ 32 → Solves columns rank target (err plan_error)
outside-Solves short = record {
  sound = λ s e. absurd (failed s e);
  ended = λ e. cc;
  complete = λ full. absurd (short full);
}
  where
    failed : (s : ℕ) → ◌≡◌ {A = Result PlanFault ℕ} (err plan_error) (ok s) → ⊥
    failed s e = cc

-- Adding the same value on both sides keeps what is left.
still_left :
    (columns : List ℕ) (solution selects v value target : ℕ)
    → bit_xor (combine columns solution) v ≡ target
    → combine columns selects ≡ value
    → bit_xor (combine columns (bit_xor solution selects)) (bit_xor v value) ≡ target
still_left columns solution selects v value target left combined =
    ap₂ bit_xor
      (combine-bit_xor columns solution selects ∙ ap (bit_xor (combine columns solution)) combined)
      refl
    ∙ bit_xor_swap (combine columns solution) value v value
    ∙ ap₂ bit_xor left (bit_xor_self value)
    ∙ bit_xor-zero target

solve-Solves :
    (columns : List ℕ) (fuel : ℕ) (basis : Basis) (rank v solution target : ℕ)
    → IsBasis columns basis rank
    → v < 2 ^ fuel
    → fuel ≤ 32
    → bit_xor (combine columns solution) v ≡ target
    → solution < 2 ^ 32
    → Solves columns rank target (solve fuel basis v solution)
solve-Solves columns zero basis rank zero solution target good small word left short =
    ok-Solves solution left short
solve-Solves columns zero basis rank (suc v) solution target good small word left short =
    absurd (omega arith)
solve-Solves columns (suc fuel) basis rank zero solution target good small word left short =
    ok-Solves solution left short
solve-Solves columns (suc fuel) basis rank (suc v) solution target good small word left short =
    elim (Option-cases (entry basis (bit_length (suc v) - 1))) [
      | inl empty ↦
          rw (solve, empty)
            (outside-Solves (λ full.
              filled_entries_full basis (bit_length (suc v) - 1)
                (omega (arith, full, good.counted, good.slots))
                (omega (arith, good.slots, pivot-lt fuel v small)) empty))
      | inr ((value, columns'), found) ↦
          let is = good.pivots (bit_length (suc v) - 1) value columns' found in
          rw (solve, found)
            (solve-Solves columns fuel basis rank (bit_xor (suc v) value)
              (bit_xor solution columns') target good (shorter fuel v value columns' small is)
              (omega arith)
              (still_left columns solution columns' (suc v) value target left is.combined)
              (bit_xor-lt 32 solution columns' short is.is_word))
    ]

-- The result of the second loop, paired with the rank.
abbrev pub with_rank : ℕ → Result PlanFault ℕ → Result PlanFault (ℕ × ℕ)
with_rank rank r = elim r [ ok solution ↦ ok (solution, rank) | err e ↦ err e ]

-- A run of `gf2_solve` on 32 columns, by its two loops.
pub gf2_solve-lem :
    (columns : List ℕ)
    → length columns ≡ 32
    → (basis : Basis) × (rank : ℕ) × (eliminate_all (replicate 32 none) 0 0 columns
        ≡ ok (basis, rank))
      × ((target : ℕ)
          → (r : Result PlanFault ℕ) × (gf2_solve columns target ≡ with_rank rank r)
            × Solves columns rank (target % 2 ^ 32) r)
unfolding gf2_solve
gf2_solve-lem columns full =
    let (basis, rank, ends, good) =
      eliminate_all-Ends columns [] columns (replicate 32 none) 0 0 refl refl full
        (empty-IsBasis columns) in
    (
      basis,
      rank,
      ends,
      λ target. (
        solve 32 basis (target % 2 ^ 32) 0,
        rw (full, ends) refl,
        solve-Solves columns 32 basis rank (target % 2 ^ 32) 0 (target % 2 ^ 32) good (omega arith)
            (omega arith)
            (ap (λ x. bit_xor x (target % 2 ^ 32)) (combine-zero columns)
              ∙ zero-bit_xor (target % 2 ^ 32))
            (omega arith),
      ),
    )

with_rank-eq-ok :
    (rank rank' solution : ℕ) (r : Result PlanFault ℕ)
    → ◌≡◌ {A = Result PlanFault (ℕ × ℕ)} (with_rank rank r) (ok (solution, rank'))
    → (r ≡ ok solution) × (rank ≡ rank')
with_rank-eq-ok rank rank' solution (ok s) e = (cc, cc)
with_rank-eq-ok rank rank' solution (err f) e = cc

with_rank-eq-out :
    (rank : ℕ) (r : Result PlanFault ℕ) → with_rank rank r ≡ err out_of_fuel → r ≡ err out_of_fuel
with_rank-eq-out rank (ok s) e = cc
with_rank-eq-out rank (err f) e = cc

-- Any other number of columns is refused.
gf2_solve-columns :
    (columns : List ℕ) (target : ℕ)
    → (length columns ≡ 32) ⊎ (gf2_solve columns target ≡ err plan_error)
unfolding gf2_solve
gf2_solve-columns columns target = elim (Bool-cases (length columns == 32)) [
  | inl full ↦ inl ((==_iff (length columns) 32).0 full)
  | inr short ↦ inr (rw short refl)
]

ok-columns :
    (columns : List ℕ) (target : ℕ) (a : ℕ × ℕ)
    → gf2_solve columns target ≡ ok a
    → length columns ≡ 32
ok-columns columns target a e = elim (gf2_solve-columns columns target) [
  | inl full ↦ full
  | inr refused ↦ absurd (differ (sym refused ∙ e))
]
  where
    differ : ◌≡◌ {A = Result PlanFault (ℕ × ℕ)} (err plan_error) (ok a) → ⊥
    differ e = cc

-- Whatever the columns and the target, the loops of the solver end: the fuel of the model, one
-- step for each of the 32 digits, is enough for both.
pub gf2_solve_ends : (columns : List ℕ) (target : ℕ) → gf2_solve columns target ≢ err out_of_fuel
gf2_solve_ends columns target e = elim (gf2_solve-columns columns target) [
  | inl full ↦
      let (basis, rank, ends, run) = gf2_solve-lem columns full in
      let (r, is, solves) = run target in solves.ended (with_rank-eq-out rank r (sym is ∙ e))
  | inr refused ↦ differ (sym refused ∙ e)
]
  where
    differ : ◌≡◌ {A = Result PlanFault (ℕ × ℕ)} (err plan_error) (err out_of_fuel) → ⊥
    differ e = cc

-- A solution has 32 bits, and the columns that its digits select add up without carries to the low
-- 32 bits of the target.
pub gf2_solve_sound :
    (columns : List ℕ) (target solution rank : ℕ)
    → gf2_solve columns target ≡ ok (solution, rank)
    → (combine columns solution ≡ target % 2 ^ 32) × (solution < 2 ^ 32)
gf2_solve_sound columns target solution rank e =
    let (basis, rank', ends, run) =
      gf2_solve-lem columns (ok-columns columns target (solution, rank) e) in
    let (r, is, solves) = run target in
    solves.sound solution (with_rank-eq-ok rank' rank solution r (sym is ∙ e)).0

-- If the solver reports rank 32 for one target, it solves every target with the same columns, and
-- reports rank 32 again.
pub gf2_solve_full_rank :
    (columns : List ℕ) (target solution : ℕ)
    → gf2_solve columns target ≡ ok (solution, 32)
    → (target' : ℕ) → (solution' : ℕ) × (gf2_solve columns target' ≡ ok (solution', 32))
gf2_solve_full_rank columns target solution e target' =
    let (basis, rank', ends, run) =
      gf2_solve-lem columns (ok-columns columns target (solution, 32) e) in
    let (r, is, solves) = run target in
    let full = (with_rank-eq-ok rank' 32 solution r (sym is ∙ e)).1 in
    let (r', is', solves') = run target' in
    let (solution', found) = solves'.complete full in (solution', is' ∙ ap₂ with_rank full found)
