-- ===== src/Updater/Placed.antt =====
-- A byte string in three parts, and how the parts move when a loop takes the next unit.
use kb.Base.{
  ℕ, ◌+◌, ◌≡◌, sym, ap, ◌∙◌, ◌++◌, append_assoc, arith, length, take, drop, length-append,
  length-take, length-drop, take-append-drop, slice, slice-append, Bytes,
}

-- The `n` bytes `middle` at `i`.
abbrev pub Placed : ℕ → ℕ → Bytes → Bytes → Bytes → Bytes → Type 0
Placed i n whole before middle after =
    (whole ≡ before ++ (middle ++ after)) × (length before ≡ i) × (length middle ≡ n)

pub slice-Placed :
    (i n : ℕ) (whole before middle after : Bytes)
    → Placed i n whole before middle after
    → slice whole i n ≡ middle
slice-Placed i n whole before middle after p = rw p.0 (slice-append i n before middle after p.1 p.2)

-- The first unit of the middle.
pub Placed-first :
    (i n m : ℕ) (whole before middle after : Bytes)
    → Placed i (n + m) whole before middle after
    → Placed i n whole before (take n middle) (drop n middle ++ after)
Placed-first i n m whole before middle after p = (
  p.0
      ∙ ap (λ ys. before ++ ys)
          (rw (← append_assoc (take n middle) (drop n middle) after, take-append-drop n middle)),
  p.1,
  omega (arith, length-take n middle, p.2),
)

-- The other units, when the first one has become another.
pub Placed-rest :
    (i n m : ℕ) (whole before middle after new : Bytes)
    → Placed i (n + m) whole before middle after
    → length new ≡ n
    → Placed
        (i + n)
        m
        (before ++ (new ++ (drop n middle ++ after)))
        (before ++ new)
        (drop n middle)
        after
Placed-rest i n m whole before middle after new p e = (
  sym (append_assoc before new (drop n middle ++ after)),
  omega (arith, length-append before new, p.1),
  omega (arith, length-drop n middle, p.2),
)

-- A whole as its units.
pub Placed-whole :
    (i n m : ℕ) (whole before middle after : Bytes)
    → Placed i (n + m) whole before middle after
    → Placed (i + n) m whole (before ++ take n middle) (drop n middle) after
Placed-whole i n m whole before middle after p =
    let first = Placed-first i n m whole before middle after p in
    let rest = Placed-rest i n m whole before middle after (take n middle) p first.2 in
    (first.0 ∙ rest.0, rest.1, rest.2)

-- Two units put back together.
pub append_units :
    (before middle after : Bytes) (n : ℕ)
    → (before ++ take n middle) ++ (drop n middle ++ after) ≡ before ++ (middle ++ after)
append_units before middle after n =
    append_assoc before (take n middle) (drop n middle ++ after)
    ∙ ap (λ ys. before ++ ys)
        (rw (← append_assoc (take n middle) (drop n middle) after, take-append-drop n middle))
