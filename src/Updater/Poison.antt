-- ===== src/Updater/Poison.antt =====
-- The poison of a core in kb7-updater-plan.py clears one bit of one erased byte.
use kb.Base.{
  ℕ, zero, suc, ◌+◌, ◌-◌, ◌*◌, ◌/◌, ◌%◌, ◌≤◌, ◌<◌, ◌≡◌, refl, sym, ap, ap₂, subst, ◌∙◌, ◌⊎◌, inl,
  inr, Option, none, some, [], ◌∷◌, ◌++◌, arith, ◌==◌, ==_iff, Bool-cases, Option-cases, length,
  get_elem?, set, take, drop, length-take, length-set, slice, length-slice, Bytes, IsBytes,
  IsBytes-take, IsBytes-drop, bit_and-full, bit_and_comm, Result, ok, err,
}
use kb.Updater.Regions.{
  PlanFault, plan_error, block_bytes, core0_start, core1_envelope_end, RegionSpec,
}
use kb.Updater.Operations.{erased, and_bytes, effect, apply_operation}
use kb.Updater.Bitwise.{length-erased}
use kb.Updater.Applied.{three_parts, InEnvelopes}
use kb.Updater.Blocks.{envelope_guard}
use kb.Updater.Sequence.{find_erased, Poison, poison_at, choose_poison, poison_operation}

find_erased_sound :
    (i : ℕ) (xs : Bytes) (k : ℕ)
    → find_erased i xs ≡ some k
    → (i ≤ k) × (k < i + length xs) × (get_elem? xs (k - i) ≡ some 255)
find_erased_sound i [] k h = cc
find_erased_sound i (x ∷ xs) k h = elim (Bool-cases (x == 255)) [
  | inl e ↦
      let found : some i ≡ some k = rw e at h in
      let same : i ≡ k = cc in
      let none_before : k - i ≡ 0 = omega (arith, same) in
      (omega (arith, same), omega (arith, same), rw none_before (ap some ((==_iff x 255).0 e)))
  | inr e ↦
      let rest = find_erased_sound (i + 1) xs k (rw e at h) in
      let step : k - i ≡ suc (k - (i + 1)) = omega (arith, rest.0) in
      (omega (arith, rest.0), omega (arith, rest.1), rw step rest.2)
]

get_elem?-drop : (n : ℕ) (xs : Bytes) (k : ℕ) → get_elem? (drop n xs) k ≡ get_elem? xs (n + k)
get_elem?-drop zero xs k = let e : 0 + k ≡ k = omega arith in rw e
get_elem?-drop (suc n) [] k = refl
get_elem?-drop (suc n) (x ∷ xs) k =
    let e : suc n + k ≡ suc (n + k) = omega arith in rw e (get_elem?-drop n xs k)

get_elem?-take : (n : ℕ) (xs : Bytes) (k : ℕ) → k < n → get_elem? (take n xs) k ≡ get_elem? xs k
get_elem?-take zero xs k h = absurd (omega arith)
get_elem?-take (suc n) [] k h = refl
get_elem?-take (suc n) (x ∷ xs) zero h = refl
get_elem?-take (suc n) (x ∷ xs) (suc k) h = get_elem?-take n xs k (omega arith)

get_elem?-slice :
    (xs : Bytes) (i n k : ℕ) → k < n → get_elem? (slice xs i n) k ≡ get_elem? xs (i + k)
get_elem?-slice xs i n k h = get_elem?-take n (drop i xs) k h ∙ get_elem?-drop i xs k

set-behind : (xs ys : Bytes) (k v : ℕ) → set (xs ++ ys) (length xs + k) v ≡ xs ++ set ys k v
set-behind [] ys k v = let e : 0 + k ≡ k = omega arith in rw e
set-behind (x ∷ xs) ys k v =
    let e : suc (length xs) + k ≡ suc (length xs + k) = omega arith in
    rw e (ap (◌∷◌ x) (set-behind xs ys k v))

set-inside : (xs ys : Bytes) (k v : ℕ) → k < length xs → set (xs ++ ys) k v ≡ set xs k v ++ ys
set-inside [] ys k v h = absurd (omega arith)
set-inside (x ∷ xs) ys zero v h = refl
set-inside (x ∷ xs) ys (suc k) v h = ap (◌∷◌ x) (set-inside xs ys k v (omega arith))

and_bytes-erased : (xs : Bytes) → IsBytes xs → and_bytes xs (erased (length xs)) ≡ xs
unfolding erased
and_bytes-erased [] b = refl
and_bytes-erased (x ∷ xs) b =
    ap₂ ◌∷◌ (bit_and_comm x 255 ∙ bit_and-full x b.0) (and_bytes-erased xs b.1)

-- One byte below 255 among the erased ones reaches only that byte.
and_bytes-poison :
    (xs : Bytes) (k v : ℕ)
    → IsBytes xs
    → v < 256
    → get_elem? xs k ≡ some 255
    → and_bytes xs (set (erased (length xs)) k v) ≡ set xs k v
unfolding erased
and_bytes-poison [] k v b small h = refl
and_bytes-poison (x ∷ xs) zero v b small h =
    let top : x ≡ 255 = cc in rw (top, bit_and-full v small) (ap (◌∷◌ v) (and_bytes-erased xs b.1))
and_bytes-poison (x ∷ xs) (suc k) v b small h =
    ap₂ ◌∷◌ (bit_and_comm x 255 ∙ bit_and-full x b.0) (and_bytes-poison xs k v b.1 small h)

set-three_parts :
    (i n : ℕ) (image : Bytes) (k v : ℕ)
    → i + n ≤ length image
    → k < n
    → set image (i + k) v ≡ take i image ++ (set (slice image i n) k v ++ drop (i + n) image)
set-three_parts i n image k v fits small =
    let front : length (take i image) ≡ i = omega (arith, length-take i image) in
    let whole = take i image ++ (slice image i n ++ drop (i + n) image) in
    let moved : set whole (i + k) v
        ≡ take i image ++ set (slice image i n ++ drop (i + n) image) k v =
      subst
        (λ j. set whole (j + k) v ≡ take i image ++ set (slice image i n ++ drop (i + n) image) k v)
        front (set-behind (take i image) (slice image i n ++ drop (i + n) image) k v) in
    ap (λ ys. set ys (i + k) v) (three_parts i n image)
    ∙ moved
    ∙ ap (λ ys. take i image ++ ys)
        (set-inside (slice image i n) (drop (i + n) image) k v
          (omega (arith, length-slice image i n fits)))

-- The block of a byte, and the byte in the block.
poison-apply :
    (image : Bytes) (byte : ℕ) (spec : RegionSpec) (payload_offset : ℕ)
    → IsBytes image
    → core1_envelope_end ≤ length image
    → InEnvelopes (byte / block_bytes * block_bytes) block_bytes
    → get_elem? image byte ≡ some 255
    → apply_operation image (poison_operation spec (poison_at byte) payload_offset)
      ≡ ok (set image byte 0xfe)
unfolding apply_operation effect
poison-apply image byte spec payload_offset b size inside found =
    let n = block_bytes in
    let block = byte / n * n in
    let k = byte - block in
    let whole : block + k ≡ byte = omega arith in
    let small : k < n = omega arith in
    let unit = slice image block n in
    let full : length unit ≡ n = length-slice image block n (omega (arith, inside.1)) in
    let in_unit : get_elem? unit k ≡ some 255 =
      get_elem?-slice image block n k small ∙ rw whole found in
    let programmed : and_bytes unit (set (erased n) k 0xfe) ≡ set unit k 0xfe =
      subst (λ m. and_bytes unit (set (erased m) k 0xfe) ≡ set unit k 0xfe) full
        (and_bytes-poison unit k 0xfe (IsBytes-take n _ (IsBytes-drop block image b)) (omega arith)
          in_unit) in
    let aligned : block % n ≡ 0 = omega arith in
    let count : length (set (erased n) k 0xfe) ≡ n =
      length-set (erased n) k 0xfe ∙ length-erased n in
    let stored : set image byte 0xfe
        ≡ take block image ++ (set unit k 0xfe ++ drop (block + n) image) =
      subst
        (λ j. set image j 0xfe ≡ take block image ++ (set unit k 0xfe ++ drop (block + n) image))
        whole (set-three_parts block n image k 0xfe (omega (arith, inside.1)) small) in
    rw (envelope_guard block n inside (omega arith), effect, count, aligned, programmed, stored)

-- What a poison is for an image and a region.
abbrev pub IsPoison : Bytes → RegionSpec → Poison → ℕ → Type 0
IsPoison image spec p payload_offset =
    (spec.start + 0x1000 ≤ p.byte_offset)
    × (p.byte_offset < spec.start + spec.fixup_offset)
    × (get_elem? image p.byte_offset ≡ some 255)
    × (apply_operation image (poison_operation spec p payload_offset)
        ≡ ok (set image p.byte_offset 0xfe))

poison_at-IsPoison :
    (image : Bytes) (spec : RegionSpec) (relative payload_offset : ℕ)
    → find_erased 0
        (slice image (spec.start + 0x1000) (spec.start + spec.fixup_offset - (spec.start + 0x1000)))
      ≡ some relative
    → IsBytes image
    → core1_envelope_end ≤ length image
    → core0_start ≤ spec.start
    → spec.start + spec.fixup_offset + block_bytes ≤ core1_envelope_end
    → IsPoison image spec (poison_at (spec.start + 0x1000 + relative)) payload_offset
poison_at-IsPoison image spec relative payload_offset h b size low high =
    let start = spec.start + 0x1000 in
    let n = spec.start + spec.fixup_offset - start in
    let found = find_erased_sound 0 (slice image start n) relative h in
    let count : length (slice image start n) ≤ n =
      omega (arith, length-take n (drop start image)) in
    let below : relative < n = omega (arith, found.1) in
    let same : relative - 0 ≡ relative = omega arith in
    let at : get_elem? image (start + relative) ≡ some 255 =
      sym (get_elem?-slice image start n relative below) ∙ rw (← same) found.2 in
    (
      omega arith,
      omega (arith, below),
      at,
      poison-apply image (start + relative) spec payload_offset b size
          (omega arith, omega (arith, below)) at,
    )

-- The two results of the search.
abbrev the_poison : RegionSpec → Option ℕ → Result PlanFault Poison
the_poison spec none = err plan_error
the_poison spec (some relative) = ok (poison_at (spec.start + 0x1000 + relative))

choose_poison-the_poison :
    (image : Bytes) (spec : RegionSpec)
    → choose_poison image spec
      ≡ the_poison spec (
          find_erased 0 (
            slice image
              (spec.start + 0x1000)
              (spec.start + spec.fixup_offset - (spec.start + 0x1000))))
unfolding choose_poison
choose_poison-the_poison image spec =
    elim (find_erased 0 (
        slice image (spec.start + 0x1000) (spec.start + spec.fixup_offset - (spec.start + 0x1000))))
      as (λ o.
        (elim o [
          | none ↦ err plan_error
          | some relative ↦ ok (poison_at (spec.start + 0x1000 + relative))
        ])
        ≡ the_poison spec o) [ none ↦ refl | some relative ↦ refl ]

ok-eq-ok : (p q : Poison) (r : Result PlanFault Poison) → r ≡ ok p → r ≡ ok q → p ≡ q
ok-eq-ok p q r g h = cc

-- The poison that is chosen for a region inside the envelopes, in an image of bytes that holds
-- them, is an erased byte between the first sector of the region and its fix-up block; its program
-- succeeds and changes that byte from 0xff to 0xfe and no other byte of the image.
pub choose_poison-IsPoison :
    (image : Bytes) (spec : RegionSpec) (p : Poison) (payload_offset : ℕ)
    → choose_poison image spec ≡ ok p
    → IsBytes image
    → core1_envelope_end ≤ length image
    → core0_start ≤ spec.start
    → spec.start + spec.fixup_offset + block_bytes ≤ core1_envelope_end
    → IsPoison image spec p payload_offset
choose_poison-IsPoison image spec p payload_offset h b size low high = chosen (Option-cases found)
  where
    found : Option ℕ
    found =
        find_erased 0 (
          slice image (spec.start + 0x1000)
            (spec.start + spec.fixup_offset - (spec.start + 0x1000)))

    opened : the_poison spec found ≡ ok p
    opened = sym (choose_poison-the_poison image spec) ∙ h

    chosen :
        (found ≡ none) ⊎ ((relative : ℕ) × (found ≡ some relative))
        → IsPoison image spec p payload_offset
    chosen (inl missing) =
        let failed : the_poison spec none ≡ ok p = sym (ap (the_poison spec) missing) ∙ opened in cc
    chosen (inr (relative, e)) =
        let same : the_poison spec (some relative) ≡ ok p = sym (ap (the_poison spec) e) ∙ opened in
        subst (λ q. IsPoison image spec q payload_offset)
          (ok-eq-ok (poison_at (spec.start + 0x1000 + relative)) p (the_poison spec (some relative))
            refl same)
          (poison_at-IsPoison image spec relative payload_offset e b size low high)
