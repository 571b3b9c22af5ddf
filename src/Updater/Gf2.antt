-- ===== src/Updater/Gf2.antt =====
-- The solver for linear equations over bits in kb7-updater-plan.py: `gf2_solve`.
use kb.Base.{
  ℕ, zero, suc, ◌+◌, ◌-◌, ◌*◌, ◌/◌, ◌%◌, ◌^◌, ◌≤◌, ◌<◌, min, bit_and, bit_or, bit_xor, ◌≡◌, refl,
  sym, ap, ap₂, subst, ◌∙◌, ◌≢◌, ◌↔◌, ◌⊎◌, inl, inr, Bool, true, false, ◌&&◌, ◌||◌, not, Option,
  none, some, List, [], ◌∷◌, ◌++◌, map, append_assoc, append-nil, arith, ltb, leb, ◌==◌, ◌!=◌,
  if◌then◌else◌, ltb→lt, lt→ltb, leb→le, le→leb, ==_iff, ==_refl, tests, Bool-cases, Option-cases,
  and-eq-true, length, get_elem?, set, take, drop, replicate, length-append, length-take,
  length-drop, length-replicate, length-set, take-append-drop, take-all, drop-all, take-append,
  drop-append, take-append_le, drop-append_le, drop-drop, drop-nil, take-nil, replicate-append,
  replicate_split, take-append-take, slice, splice, length-slice, slice-append,
  get_elem?-append_middle, set-append_middle, Bytes, IsBytes, le, le_value, ljust, any, eq_bytes,
  eq_bytes_sound, eq_bytes_refl, IsBytes-append, IsBytes-take, IsBytes-drop, IsBytes-replicate,
  IsBytes-le, length-le, le-le_value, le_value-lt, length-ljust, IsBytes-ljust, ljust-full,
  take-ljust, any-drop-ljust, bit_or-full, bit_and-full, bit_and_comm, bit_and_self, bit_and_absorb,
  bit_and_assoc, bit_and-le, bit_or_self, crc32, is_utf8, crc32-lt, bit_xor-low, bit_xor-half,
  zero-bit_xor, by_digits, bit_xor_comm, bit_xor-zero, bit_xor_self, bit_xor_assoc, bit_xor_cancel,
  bit_xor_swap, bit_xor-lt, bit_xor_same_length, Result, ok, err, Action, pure, raise, lift, ◌>>=◌,
  ◌>>◌, raise_if, modify, guard-eq-ok, then-eq-ok,
}
use kb.Updater.Regions.{PlanFault, plan_error, out_of_fuel}
use kb.Updater.Operations.{require}
pub mod Columns
pub mod Basis
pub mod Elimination
pub mod Solved
pub mod Independent

-- `n.bit_length()`, of a number up to the fuel.
abbrev pub bit_length_within : ℕ → ℕ → ℕ
bit_length_within zero n = 0
bit_length_within (suc fuel) zero = 0
bit_length_within (suc fuel) (suc n) = suc (bit_length_within fuel (suc n / 2))

abbrev pub bit_length : ℕ → ℕ
bit_length n = bit_length_within n n

-- `basis`: at each pivot a value of that length and the columns it combines.
abbrev pub Basis : Type 0
Basis = List (Option (ℕ × ℕ))

-- `basis[pivot]`, at a pivot inside the list.
abbrev pub entry : Basis → ℕ → Option (ℕ × ℕ)
entry [] pivot = none
entry (slot ∷ basis) zero = slot
entry (slot ∷ basis) (suc pivot) = entry basis pivot

-- The inner `while value` of the elimination, with the number of its steps as fuel.
abbrev pub eliminate : ℕ → Basis → ℕ → ℕ → ℕ → Result PlanFault (Basis × ℕ)
eliminate zero basis rank zero combination = ok (basis, rank)
eliminate zero basis rank (suc v) combination = err out_of_fuel
eliminate (suc fuel) basis rank zero combination = ok (basis, rank)
eliminate (suc fuel) basis rank (suc v) combination =
    let pivot = bit_length (suc v) - 1 in
    elim (entry basis pivot) [
      | none ↦ ok (set basis pivot (some (suc v, combination)), suc rank)
      | some (value, columns) ↦
          eliminate fuel basis rank (bit_xor (suc v) value) (bit_xor combination columns)
    ]

-- `for index, column in enumerate(columns)`
abbrev pub eliminate_all : Basis → ℕ → ℕ → List ℕ → Result PlanFault (Basis × ℕ)
eliminate_all basis rank index [] = ok (basis, rank)
eliminate_all basis rank index (column ∷ columns) =
    elim (eliminate 32 basis rank (column % 2 ^ 32) (2 ^ index)) [
      | ok (basis', rank') ↦ eliminate_all basis' rank' (suc index) columns
      | err e ↦ err e
    ]

-- The `while value` behind the elimination.
abbrev pub solve : ℕ → Basis → ℕ → ℕ → Result PlanFault ℕ
solve zero basis zero solution = ok solution
solve zero basis (suc v) solution = err out_of_fuel
solve (suc fuel) basis zero solution = ok solution
solve (suc fuel) basis (suc v) solution = elim (entry basis (bit_length (suc v) - 1)) [
  | none ↦ err plan_error
  | some (value, columns) ↦ solve fuel basis (bit_xor (suc v) value) (bit_xor solution columns)
]

unfoldable pub gf2_solve : List ℕ → ℕ → Result PlanFault (ℕ × ℕ)
gf2_solve columns target =
    require (length columns == 32) (elim (eliminate_all (replicate 32 none) 0 0 columns) [
      | ok (basis, rank) ↦ elim (solve 32 basis (target % 2 ^ 32) 0) [
        | ok solution ↦ ok (solution, rank)
        | err e ↦ err e
      ]
      | err e ↦ err e
    ])
