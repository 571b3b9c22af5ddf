-- ===== src/Storage/Cleared.antt =====
-- Programming never sets a bit, also where it raises half-way.
use kb.Base.{
  ℕ, zero, suc, ◌+◌, bit_and, bit_or, ◌≡◌, sym, ap, ◌∙◌, inl, inr, some, [], ◌∷◌, arith, ◌==◌,
  Bool-cases, Option-cases, get_elem?, set, Bytes, bit_and_self, bit_and_absorb, bit_and_assoc,
}
use kb.Storage.Nor.{program}

-- Each byte of `new` keeps only bits that the byte of `old` has, and the length stays.
abbrev pub IsCleared : Bytes → Bytes → Type 0
IsCleared [] [] = Unit
IsCleared [] (n ∷ ns) = ⊥
IsCleared (o ∷ os) [] = ⊥
IsCleared (o ∷ os) (n ∷ ns) = (bit_and o n ≡ n) × IsCleared os ns

IsCleared-refl : (xs : Bytes) → IsCleared xs xs
IsCleared-refl [] = tt
IsCleared-refl (x ∷ xs) = (bit_and_self x, IsCleared-refl xs)

IsCleared-trans : (xs ys zs : Bytes) → IsCleared xs ys → IsCleared ys zs → IsCleared xs zs
IsCleared-trans [] [] [] p q = tt
IsCleared-trans [] [] (z ∷ zs) p q = elim q [ ]
IsCleared-trans [] (y ∷ ys) zs p q = elim p [ ]
IsCleared-trans (x ∷ xs) [] zs p q = elim p [ ]
IsCleared-trans (x ∷ xs) (y ∷ ys) [] p q = elim q [ ]
IsCleared-trans (x ∷ xs) (y ∷ ys) (z ∷ zs) p q = (
  ap (bit_and x) (sym q.0) ∙ sym (bit_and_assoc x y z) ∙ ap (λ (t : ℕ). bit_and t z) p.0 ∙ q.0,
  IsCleared-trans xs ys zs p.1 q.1,
)

IsCleared-set :
    (xs : Bytes) (i value old : ℕ)
    → get_elem? xs i ≡ some old
    → IsCleared xs (set xs i (bit_and old value))
IsCleared-set [] i value old h = tt
IsCleared-set (x ∷ xs) zero value old h =
    let e : x ≡ old = ground arith in (rw e (bit_and_absorb old value), IsCleared-refl xs)
IsCleared-set (x ∷ xs) (suc i) value old h = (bit_and_self x, IsCleared-set xs i value old h)

-- A call of `_program` leaves a flash of the same length in which no bit has gone from 0 to 1,
-- whether it returns or raises.
pub program-IsCleared :
    (offset : ℕ) (content flash : Bytes) → IsCleared flash (program offset content flash).1
unfolding program
program-IsCleared offset [] flash = IsCleared-refl flash
program-IsCleared offset (value ∷ rest) flash = elim (Option-cases (get_elem? flash offset)) [
  | inl e ↦ rw (e, program) (IsCleared-refl flash)
  | inr (old, e) ↦ elim (Bool-cases (bit_or value old == old)) [
    | inl t ↦
        rw (e, program, t)
          (IsCleared-trans flash (set flash offset (bit_and old value)) _
            (IsCleared-set flash offset value old e)
            (program-IsCleared (offset + 1) rest (set flash offset (bit_and old value))))
    | inr t ↦ rw (e, program, t) (IsCleared-refl flash)
  ]
]
