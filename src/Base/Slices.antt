-- ===== src/Base/Slices.antt =====
-- Python's slices of byte strings: `xs[i:i + n]`, with its clamping at the end.
use Prim.Native.Nat.{ℕ, ◌+◌, ◌≤◌}
use mathlib.Core.Path.{◌≡◌, refl, ap, ◌∙◌}
use mathlib.Core.List.{List, [], ◌∷◌, ◌++◌}
use mathlib.Core.Option.{some}
use native.Mathlib.Omega.{arith}
use kb.Base.Lists.{
  length, take, drop, get_elem?, set, length-take, length-drop, take-append, drop-append,
}

module _ {ℓ} {A : Type ℓ} where
  -- `xs[i:i + n]`
  abbrev pub slice : List A → ℕ → ℕ → List A
  slice xs i n = take n (drop i xs)

  -- `xs[i:i + len(ys)] = ys`, inside the bounds of `xs`.
  abbrev pub splice : List A → ℕ → List A → List A
  splice xs i ys = take i xs ++ ys ++ drop (i + length ys) xs

module _ {ℓ} {A : Type ℓ} where
  pub length-slice : (xs : List A) (i n : ℕ) → i + n ≤ length xs → length (slice xs i n) ≡ n
  length-slice xs i n h = omega (arith, length-take n (drop i xs), length-drop i xs)

  -- The middle of three parts.
  pub slice-append :
      (i n : ℕ) (xs ys zs : List A)
      → length xs ≡ i
      → length ys ≡ n
      → slice (xs ++ (ys ++ zs)) i n ≡ ys
  slice-append i n xs ys zs hx hy =
      ap (take n) (drop-append i xs (ys ++ zs) hx) ∙ take-append n ys zs hy

  pub get_elem?-append_middle :
      (xs ys : List A) (y : A) → get_elem? (xs ++ (y ∷ ys)) (length xs) ≡ some y
  get_elem?-append_middle [] ys y = refl
  get_elem?-append_middle (x ∷ xs) ys y = get_elem?-append_middle xs ys y

  pub set-append_middle :
      (xs ys : List A) (y v : A) → set (xs ++ (y ∷ ys)) (length xs) v ≡ xs ++ (v ∷ ys)
  set-append_middle [] ys y v = refl
  set-append_middle (x ∷ xs) ys y v = ap (◌∷◌ x) (set-append_middle xs ys y v)
