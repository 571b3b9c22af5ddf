-- ===== src/Updater/Gf2/Basis.antt =====
-- What the basis of `gf2_solve` keeps: at each pivot a combination of the columns of that length.
use kb.Base.{
  ℕ, zero, suc, ◌^◌, ◌≤◌, ◌<◌, ◌≡◌, refl, sym, ap, subst, ◌∙◌, ◌≢◌, ◌⊎◌, inl, inr, Option, none,
  some, List, [], ◌∷◌, arith, length, set, replicate, length-set,
}
use kb.Updater.Gf2.{Basis, entry}
use kb.Updater.Gf2.Columns.{combine}

-- The number of entries that are not `None`.
abbrev pub filled_entries : Basis → ℕ
filled_entries [] = 0
filled_entries (none ∷ basis) = filled_entries basis
filled_entries (some e ∷ basis) = suc (filled_entries basis)

pub record IsPivot (columns : List ℕ) (pivot value combination : ℕ) : Type 0 where
  pub at_least : 2 ^ pivot ≤ value
  pub below : value < 2 ^ suc pivot
  pub combined : combine columns combination ≡ value
  pub is_word : combination < 2 ^ 32

pub record IsBasis (columns : List ℕ) (basis : Basis) (rank : ℕ) : Type 0 where
  pub slots : length basis ≡ 32
  pub counted : rank ≡ filled_entries basis
  pub pivots :
      (pivot value combination : ℕ)
      → entry basis pivot ≡ some (value, combination)
      → IsPivot columns pivot value combination

-- A write shows at its own pivot, and at no other.
pub entry-set :
    (basis : Basis) (i pivot : ℕ) (slot : Option (ℕ × ℕ))
    → ((pivot ≡ i) × (entry (set basis i slot) pivot ≡ slot))
      ⊎ (entry (set basis i slot) pivot ≡ entry basis pivot)
entry-set [] i pivot slot = inr refl
entry-set (s ∷ basis) zero zero slot = inl (refl, refl)
entry-set (s ∷ basis) zero (suc pivot) slot = inr refl
entry-set (s ∷ basis) (suc i) zero slot = inr refl
entry-set (s ∷ basis) (suc i) (suc pivot) slot = elim (entry-set basis i pivot slot) [
  | inl (here, shows) ↦ inl (ap suc here, shows)
  | inr kept ↦ inr kept
]

filled_entries-set :
    (basis : Basis) (i : ℕ) (e : ℕ × ℕ)
    → entry basis i ≡ none
    → i < length basis
    → filled_entries (set basis i (some e)) ≡ suc (filled_entries basis)
filled_entries-set [] i e empty inside = absurd (omega arith)
filled_entries-set (none ∷ basis) zero e empty inside = refl
filled_entries-set (some x ∷ basis) zero e empty inside = cc
filled_entries-set (none ∷ basis) (suc i) e empty inside =
    filled_entries-set basis i e empty (omega arith)
filled_entries-set (some x ∷ basis) (suc i) e empty inside =
    ap suc (filled_entries-set basis i e empty (omega arith))

filled_entries-le : (basis : Basis) → filled_entries basis ≤ length basis
filled_entries-le [] = omega arith
filled_entries-le (none ∷ basis) = omega (arith, filled_entries-le basis)
filled_entries-le (some e ∷ basis) = omega (arith, filled_entries-le basis)

-- With as many entries as slots no slot is empty.
pub filled_entries_full :
    (basis : Basis) (i : ℕ)
    → filled_entries basis ≡ length basis
    → i < length basis
    → entry basis i ≢ none
filled_entries_full [] i full inside empty = absurd (omega arith)
filled_entries_full (none ∷ basis) i full inside empty =
    absurd (omega (arith, filled_entries-le basis))
filled_entries_full (some e ∷ basis) zero full inside empty = cc
filled_entries_full (some e ∷ basis) (suc i) full inside empty =
    filled_entries_full basis i (omega arith) (omega arith) empty

moved :
    {columns : List ℕ} (p p' v v' c c' : ℕ)
    → p' ≡ p
    → ◌≡◌ {A = Option (ℕ × ℕ)} (some (v, c)) (some (v', c'))
    → IsPivot columns p v c
    → IsPivot columns p' v' c'
moved {columns = columns} p p' v v' c c' same found is =
    subst (λ x. IsPivot columns x v' c') (sym same)
      (subst (λ x. IsPivot columns p x c') value (subst (λ x. IsPivot columns p v x) selects is))
  where
    value : v ≡ v'
    value = cc

    selects : c ≡ c'
    selects = cc

pub set-IsBasis :
    (columns : List ℕ) (basis : Basis) (rank pivot value combination : ℕ)
    → IsBasis columns basis rank
    → entry basis pivot ≡ none
    → pivot < 32
    → IsPivot columns pivot value combination
    → IsBasis columns (set basis pivot (some (value, combination))) (suc rank)
set-IsBasis columns basis rank pivot value combination good empty inside fresh = record {
  slots = length-set basis pivot (some (value, combination)) ∙ good.slots;
  counted = omega (
    arith,
    good.counted,
    filled_entries-set basis pivot (value, combination) empty (omega (arith, good.slots)),
  );
  pivots = λ p v c found. elim (entry-set basis pivot p (some (value, combination))) [
    | inl (here, shows) ↦ moved pivot p value v combination c here (sym shows ∙ found) fresh
    | inr kept ↦ good.pivots p v c (sym kept ∙ found)
  ];
}

pub entry-replicate : (n pivot : ℕ) → entry (replicate n none) pivot ≡ none
entry-replicate zero pivot = refl
entry-replicate (suc n) zero = refl
entry-replicate (suc n) (suc pivot) = entry-replicate n pivot

-- `[None] * 32`
pub empty-IsBasis : (columns : List ℕ) → IsBasis columns (replicate 32 none) 0
empty-IsBasis columns = record {
  slots = refl;
  counted = refl;
  pivots = λ p v c found. absurd (none_found (sym (entry-replicate 32 p) ∙ found));
}
  where
    none_found : {A : Type 0} {a : A} → none ≡ some a → ⊥
    none_found e = cc
