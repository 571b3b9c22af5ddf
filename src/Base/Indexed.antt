-- ===== src/Base/Indexed.antt =====
-- Lists by their elements: what stands at an index of a slice, and equality at every index.
use Prim.Native.Nat.{ℕ, zero, suc, ◌+◌, ◌≤◌, ◌<◌}
use mathlib.Core.Path.{◌≡◌, refl, sym, ap, ap₂, ◌∙◌}
use mathlib.Core.Logic.{◌⊎◌, inl, inr}
use mathlib.Core.List.{List, [], ◌∷◌, ◌++◌}
use mathlib.Core.Option.{none, some}
use native.Mathlib.Omega.{arith}
use kb.Base.Tests.{ltb, ltb→lt, Bool-cases}
use kb.Base.Lists.{length, get_elem?, take, drop, replicate}
use kb.Base.Slices.{slice}

pub lt-or-le : (x y : ℕ) → (x < y) ⊎ (y ≤ x)
lt-or-le x y = elim (Bool-cases (ltb x y)) [
  | inl h ↦ inl (ltb→lt x y h)
  | inr h ↦ inr (ground arith)
]

module _ {A : Type 0} where
  pub get_elem?_past : (xs : List A) (j : ℕ) → length xs ≤ j → get_elem? xs j ≡ none
  get_elem?_past [] j h = refl
  get_elem?_past (x ∷ xs) zero h = absurd (omega arith)
  get_elem?_past (x ∷ xs) (suc j) h = get_elem?_past xs j (omega arith)

  pub get_elem?-drop :
      (n : ℕ) (xs : List A) (j : ℕ) → get_elem? (drop n xs) j ≡ get_elem? xs (n + j)
  get_elem?-drop zero xs j = ap (get_elem? xs) (omega arith)
  get_elem?-drop (suc n) [] j = refl
  get_elem?-drop (suc n) (x ∷ xs) j = get_elem?-drop n xs j ∙ ap (get_elem? (x ∷ xs)) e
    where
      e : suc (n + j) ≡ suc n + j
      e = omega arith

  pub get_elem?-take :
      (n : ℕ) (xs : List A) (j : ℕ) → j < n → get_elem? (take n xs) j ≡ get_elem? xs j
  get_elem?-take zero xs j h = absurd (omega arith)
  get_elem?-take (suc n) [] j h = refl
  get_elem?-take (suc n) (x ∷ xs) zero h = refl
  get_elem?-take (suc n) (x ∷ xs) (suc j) h = get_elem?-take n xs j (omega arith)

  pub get_elem?-take_past : (n : ℕ) (xs : List A) (j : ℕ) → n ≤ j → get_elem? (take n xs) j ≡ none
  get_elem?-take_past zero xs j h = refl
  get_elem?-take_past (suc n) [] j h = refl
  get_elem?-take_past (suc n) (x ∷ xs) zero h = absurd (omega arith)
  get_elem?-take_past (suc n) (x ∷ xs) (suc j) h = get_elem?-take_past n xs j (omega arith)

  pub get_elem?-append_left :
      (xs ys : List A) (j : ℕ) → j < length xs → get_elem? (xs ++ ys) j ≡ get_elem? xs j
  get_elem?-append_left [] ys j h = absurd (omega arith)
  get_elem?-append_left (x ∷ xs) ys zero h = refl
  get_elem?-append_left (x ∷ xs) ys (suc j) h = get_elem?-append_left xs ys j (omega arith)

  pub get_elem?-append_right :
      (xs ys : List A) (j : ℕ) → get_elem? (xs ++ ys) (length xs + j) ≡ get_elem? ys j
  get_elem?-append_right [] ys j = ap (get_elem? ys) (omega arith)
  get_elem?-append_right (x ∷ xs) ys j =
      ap (get_elem? (x ∷ (xs ++ ys))) e ∙ get_elem?-append_right xs ys j
    where
      e : suc (length xs) + j ≡ suc (length xs + j)
      e = omega arith

  pub get_elem?-replicate : (n j : ℕ) (a : A) → j < n → get_elem? (replicate n a) j ≡ some a
  get_elem?-replicate zero j a h = absurd (omega arith)
  get_elem?-replicate (suc n) zero a h = refl
  get_elem?-replicate (suc n) (suc j) a h = get_elem?-replicate n j a (omega arith)

  pub get_elem?-slice :
      (xs : List A) (i n j : ℕ) → j < n → get_elem? (slice xs i n) j ≡ get_elem? xs (i + j)
  get_elem?-slice xs i n j h = get_elem?-take n (drop i xs) j h ∙ get_elem?-drop i xs j

  -- Two lists with the same elements.
  pub get_elem?_equal : (xs ys : List A) → ((j : ℕ) → get_elem? xs j ≡ get_elem? ys j) → xs ≡ ys
  get_elem?_equal [] [] h = refl
  get_elem?_equal [] (y ∷ ys) h = absurd (found (h 0))
    where
      found : none ≡ some y → ⊥
      found e = cc
  get_elem?_equal (x ∷ xs) [] h = absurd (found (h 0))
    where
      found : some x ≡ none → ⊥
      found e = cc
  get_elem?_equal (x ∷ xs) (y ∷ ys) h =
      ap₂ ◌∷◌ (same (h 0)) (get_elem?_equal xs ys (λ j. h (suc j)))
    where
      same : some x ≡ some y → x ≡ y
      same e = cc

  -- Two slices of one length.
  pub slice_equal :
      (xs ys : List A) (i i' n : ℕ)
      → ((j : ℕ) → j < n → get_elem? xs (i + j) ≡ get_elem? ys (i' + j))
      → slice xs i n ≡ slice ys i' n
  slice_equal xs ys i i' n h = get_elem?_equal (slice xs i n) (slice ys i' n) (λ j.
      elim (lt-or-le j n) [
        | inl below ↦
            get_elem?-slice xs i n j below ∙ h j below ∙ sym (get_elem?-slice ys i' n j below)
        | inr past ↦
            get_elem?-take_past n (drop i xs) j past
            ∙ sym (get_elem?-take_past n (drop i' ys) j past)
      ])
