-- ===== src/Updater/Target/Stores.antt =====
-- What a store of `n` bytes into a region leaves of its slices.
use kb.Base.{
  ℕ, ◌+◌, ◌-◌, ◌≤◌, ◌<◌, ◌≡◌, sym, ap, subst, ◌∙◌, ◌⊎◌, inl, inr, ◌++◌, arith, length, get_elem?,
  take, drop, replicate, length-take, length-replicate, slice, length-slice, Bytes, lt-or-le,
  get_elem?_past, get_elem?-drop, get_elem?-take, get_elem?-take_past, get_elem?-append_left,
  get_elem?-append_right, get_elem?-replicate, get_elem?-slice, get_elem?_equal, slice_equal,
}
use kb.Updater.Operations.{erased, store_slice}
use kb.Updater.Applied.{parts_of_store}

-- A store of `k` bytes at `a`.
module _ (xs : Bytes) (a k : ℕ) (w : Bytes) (size : length w ≡ k) (fits : a + k ≤ length xs) where
  pub length-store : length (store_slice xs a (a + k) w) ≡ length xs
  length-store = (parts_of_store a k xs w fits size).0

  front : length (take a xs) ≡ a
  front = omega (arith, length-take a xs)

  pub store_before : (j : ℕ) → j < a → get_elem? (store_slice xs a (a + k) w) j ≡ get_elem? xs j
  store_before j below =
      get_elem?-append_left (take a xs) (w ++ drop (a + k) xs) j (omega (arith, front))
      ∙ get_elem?-take a xs j below

  at_front :
      (j : ℕ) → get_elem? (store_slice xs a (a + k) w) (a + j) ≡ get_elem? (w ++ drop (a + k) xs) j
  at_front j =
      ap (λ (n : ℕ). get_elem? (store_slice xs a (a + k) w) (n + j)) (sym front)
      ∙ get_elem?-append_right (take a xs) (w ++ drop (a + k) xs) j

  pub store_inside :
      (j : ℕ) → j < k → get_elem? (store_slice xs a (a + k) w) (a + j) ≡ get_elem? w j
  store_inside j below =
      at_front j ∙ get_elem?-append_left w (drop (a + k) xs) j (omega (arith, size))

  pub store_after : (j : ℕ) → a + k ≤ j → get_elem? (store_slice xs a (a + k) w) j ≡ get_elem? xs j
  store_after j past =
      ap (get_elem? (store_slice xs a (a + k) w)) index
      ∙ at_front (k + rest)
      ∙ ap (λ (n : ℕ). get_elem? (w ++ drop (a + k) xs) (n + rest)) (sym size)
      ∙ get_elem?-append_right w (drop (a + k) xs) rest
      ∙ get_elem?-drop (a + k) xs rest
      ∙ ap (get_elem? xs) back
    where
      rest : ℕ
      rest = j - (a + k)

      index : j ≡ a + (k + (j - (a + k)))
      index = omega arith

      back : a + k + (j - (a + k)) ≡ j
      back = omega arith

  -- A slice that the store does not meet.
  pub slice-store_outside :
      (i n : ℕ) → (i + n ≤ a) ⊎ (a + k ≤ i) → slice (store_slice xs a (a + k) w) i n ≡ slice xs i n
  slice-store_outside i n (inl under) =
      slice_equal (store_slice xs a (a + k) w) xs i i n
        (λ j below. store_before (i + j) (omega arith))
  slice-store_outside i n (inr over) =
      slice_equal (store_slice xs a (a + k) w) xs i i n
        (λ j below. store_after (i + j) (omega arith))

  -- The slice that was stored.
  pub slice-store_same : slice (store_slice xs a (a + k) w) a k ≡ w
  slice-store_same = (parts_of_store a k xs w fits size).3

-- A slice that holds the store is stored into itself.
module _ (xs : Bytes) (a k : ℕ) (w : Bytes) (i n : ℕ) (size : length w ≡ k)
    (fits : i + n ≤ length xs) (from : i ≤ a) (to : a + k ≤ i + n) where
  part : Bytes
  part = slice xs i n

  part_fits : a - i + k ≤ length part
  unfolding part
  part_fits = omega (arith, length-slice xs i n fits)

  whole_fits : a + k ≤ length xs
  whole_fits = omega arith

  HoldsAt : ℕ → Type 0
  HoldsAt j =
      get_elem? (slice (store_slice xs a (a + k) w) i n) j
      ≡ get_elem? (store_slice part (a - i) (a - i + k) w) j

  same_before : (j : ℕ) → j < a - i → HoldsAt j
  unfolding HoldsAt part
  same_before j below =
      get_elem?-slice (store_slice xs a (a + k) w) i n j (omega arith)
      ∙ store_before xs a k w size whole_fits (i + j) (omega arith)
      ∙ sym (get_elem?-slice xs i n j (omega arith))
      ∙ sym (store_before part (a - i) k w size part_fits j below)

  same_inside : (d : ℕ) → d < k → HoldsAt (a - i + d)
  unfolding HoldsAt part
  same_inside d below =
      get_elem?-slice (store_slice xs a (a + k) w) i n (a - i + d) (omega arith)
      ∙ ap (get_elem? (store_slice xs a (a + k) w)) index
      ∙ store_inside xs a k w size whole_fits d below
      ∙ sym (store_inside part (a - i) k w size part_fits d below)
    where
      index : i + (a - i + d) ≡ a + d
      index = omega arith

  same_after : (j : ℕ) → a - i + k ≤ j → j < n → HoldsAt j
  unfolding HoldsAt part
  same_after j past below =
      get_elem?-slice (store_slice xs a (a + k) w) i n j below
      ∙ store_after xs a k w size whole_fits (i + j) (omega arith)
      ∙ sym (get_elem?-slice xs i n j below)
      ∙ sym (store_after part (a - i) k w size part_fits j past)

  same_past : (j : ℕ) → n ≤ j → HoldsAt j
  unfolding HoldsAt part
  same_past j past =
      get_elem?-take_past n (drop i (store_slice xs a (a + k) w)) j past
      ∙ sym (get_elem?-take_past n (drop i xs) j past)
      ∙ sym (store_after part (a - i) k w size part_fits j (omega arith))

  same : (j : ℕ) → HoldsAt j
  same j = elim (lt-or-le j (a - i)) [
    | inl below ↦ same_before j below
    | inr from' ↦ elim (lt-or-le j (a - i + k)) [
      | inl inside ↦ subst HoldsAt (omega arith) (same_inside (j - (a - i)) (omega arith))
      | inr past ↦ elim (lt-or-le j n) [
        | inl below ↦ same_after j past below
        | inr out ↦ same_past j out
      ]
    ]
  ]

  pub slice-store_within :
      slice (store_slice xs a (a + k) w) i n ≡ store_slice (slice xs i n) (a - i) (a - i + k) w
  unfolding HoldsAt part
  slice-store_within =
      get_elem?_equal (slice (store_slice xs a (a + k) w) i n)
        (store_slice (slice xs i n) (a - i) (a - i + k) w) same

-- A slice of the padding.
pub slice-padded :
    (raw : Bytes) (m i n : ℕ)
    → length raw ≤ i
    → i + n ≤ length raw + m
    → slice (raw ++ erased m) i n ≡ erased n
unfolding erased
slice-padded raw m i n past fits =
    get_elem?_equal (slice (raw ++ replicate m 255) i n) (replicate n 255) (λ j.
      elim (lt-or-le j n) [
        | inl below ↦
            get_elem?-slice (raw ++ replicate m 255) i n j below
            ∙ ap (get_elem? (raw ++ replicate m 255)) (index j)
            ∙ get_elem?-append_right raw (replicate m 255) (i + j - length raw)
            ∙ get_elem?-replicate m (i + j - length raw) 255 (omega arith)
            ∙ sym (get_elem?-replicate n j 255 below)
        | inr out ↦
            get_elem?-take_past n (drop i (raw ++ replicate m 255)) j out
            ∙ sym
                (get_elem?_past (replicate n 255) j (omega (arith, length-replicate {A = ℕ} n 255)))
      ])
  where
    index : (j : ℕ) → i + j ≡ length raw + (i + j - length raw)
    index j = omega arith
