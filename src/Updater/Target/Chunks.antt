-- ===== src/Updater/Target/Chunks.antt =====
-- `fwin_checksum` of a region, by the chunk of one offset and the others.
use kb.Base.{
  ℕ, zero, suc, ◌+◌, ◌-◌, ◌*◌, ◌/◌, ◌%◌, ◌^◌, ◌≤◌, ◌<◌, min, ◌≡◌, refl, sym, ap, ap₂, subst, ◌∙◌,
  ◌≢◌, inl, inr, arith, ◌==◌, if◌then◌else◌, Bool-cases, length, take, drop, length-drop, take-all,
  drop-drop, slice, Bytes, crc32, lt-or-le, rounds,
}
use kb.Updater.Operations.{store_slice}
use kb.Updater.Sequence.{chunk_sum, fwin_checksum}
use kb.Updater.Patch.{crc_with_word}
use kb.Updater.Target.{chunk_start, other_sum}
use kb.Updater.Target.Stores.{length-store, slice-store_outside, slice-store_within}

-- The bytes of the chunk at an offset, in a region of so many bytes.
abbrev pub chunk_size : ℕ → ℕ → ℕ
chunk_size offset limit = min (offset + 0x10000) limit - offset

kept : (offset skipped x : ℕ) → offset ≢ skipped → (if offset == skipped then 0 else x) ≡ x
kept offset skipped x differ = ground arith

left_out : (offset skipped x : ℕ) → offset ≡ skipped → (if offset == skipped then 0 else x) ≡ 0
left_out offset skipped x same = ground arith

module _ (region : Bytes) where
  chunk_slice :
      (offset : ℕ)
      → take 0x10000 (drop offset region) ≡ slice region offset (chunk_size offset (length region))
  chunk_slice offset = elim (lt-or-le (length region) (offset + 0x10000)) [
    | inl short ↦
        take-all 0x10000 (drop offset region) (omega (arith, length-drop offset region))
        ∙ sym (
            take-all (chunk_size offset (length region)) (drop offset region)
              (omega (arith, length-drop offset region)))
    | inr long ↦ ap (λ (n : ℕ). slice region offset n) (full offset long)
  ]
    where
      full :
          (offset : ℕ)
          → offset + 0x10000 ≤ length region
          → 0x10000 ≡ chunk_size offset (length region)
      full offset long = omega arith

  next_chunk :
      (rounds offset : ℕ)
      → chunk_sum rounds (drop 0x10000 (drop offset region))
        ≡ chunk_sum rounds (drop (offset + 0x10000) region)
  next_chunk rounds offset = ap (chunk_sum rounds) (drop-drop offset 0x10000 region)

  -- No chunk is left out.
  others_all :
      (rounds offset skipped : ℕ)
      → skipped < offset
      → chunk_sum rounds (drop offset region)
        ≡ other_sum rounds offset skipped (length region) region
  unfolding chunk_sum
  others_all zero offset skipped h = refl
  others_all (suc rounds) offset skipped h = omega (
    arith,
    ap crc32 (chunk_slice offset),
    next_chunk rounds offset,
    kept offset skipped (crc32 (slice region offset (chunk_size offset (length region))))
        (omega arith),
    others_all rounds (offset + 0x10000) skipped (omega arith),
  )

  -- One chunk is.
  others_but_one :
      (rounds k offset skipped : ℕ)
      → skipped ≡ offset + k * 0x10000
      → k < rounds
      → chunk_sum rounds (drop offset region)
        ≡ crc32 (slice region skipped (chunk_size skipped (length region)))
          + other_sum rounds offset skipped (length region) region
  unfolding chunk_sum
  others_but_one zero k offset skipped at h = absurd (omega arith)
  others_but_one (suc rounds) zero offset skipped at h = omega (
    arith,
    ap crc32 (chunk_slice offset),
    ap (λ (i : ℕ). crc32 (slice region i (chunk_size i (length region)))) same,
    next_chunk rounds offset,
    left_out offset skipped (crc32 (slice region offset (chunk_size offset (length region))))
        (omega arith),
    others_all rounds (offset + 0x10000) skipped (omega arith),
  )
    where
      same : offset ≡ skipped
      same = omega arith
  others_but_one (suc rounds) (suc k) offset skipped at h = omega (
    arith,
    ap crc32 (chunk_slice offset),
    next_chunk rounds offset,
    kept offset skipped (crc32 (slice region offset (chunk_size offset (length region))))
        (omega arith),
    others_but_one rounds k (offset + 0x10000) skipped (omega arith) (omega arith),
  )

-- The checksum of a region, by the chunk of one of its offsets.
pub fwin_checksum-chunk :
    (region : Bytes) (offset : ℕ)
    → offset < length region
    → fwin_checksum region
      ≡ (crc32 (slice region (chunk_start offset) (chunk_size (chunk_start offset) (length region)))
          + other_sum
              ((length region + 0xffff) / 0x10000)
              0
              (chunk_start offset)
              (length region)
              region)
        % 2 ^ 32
unfolding fwin_checksum
fwin_checksum-chunk region offset inside =
    ap (λ (x : ℕ). x % 2 ^ 32)
      (others_but_one region ((length region + 0xffff) / 0x10000) (offset / 0x10000) 0
        (chunk_start offset) (omega arith) (omega arith))

-- A store inside the chunk that is left out.
module _ (region : Bytes) (a k : ℕ) (w : Bytes) (c : ℕ) (size : length w ≡ k)
    (fits : a + k ≤ length region) (from : c * 0x10000 ≤ a)
    (to : a + k ≤ c * 0x10000 + 0x10000) where
  other_chunk :
      (m : ℕ)
      → m ≢ c
      → slice
          (store_slice region a (a + k) w)
          (m * 0x10000)
          (chunk_size (m * 0x10000) (length region))
        ≡ slice region (m * 0x10000) (chunk_size (m * 0x10000) (length region))
  other_chunk m differ = elim (lt-or-le m c) [
    | inl below ↦
        slice-store_outside region a k w size fits (m * 0x10000)
          (chunk_size (m * 0x10000) (length region)) (inl (omega arith))
    | inr above ↦
        slice-store_outside region a k w size fits (m * 0x10000)
          (chunk_size (m * 0x10000) (length region)) (inr (larger m above differ))
  ]
    where
      larger : (m : ℕ) → c ≤ m → m ≢ c → a + k ≤ m * 0x10000
      larger m above differ = elim (lt-or-le c m) [
        | inl under ↦ omega arith
        | inr over ↦ absurd (differ (omega arith))
      ]

  pub other_sum-store :
      (rounds m : ℕ)
      → other_sum rounds
          (m * 0x10000)
          (c * 0x10000)
          (length region)
          (store_slice region a (a + k) w)
        ≡ other_sum rounds (m * 0x10000) (c * 0x10000) (length region) region
  other_sum-store zero m = refl
  other_sum-store (suc rounds) m =
      ap₂ (λ (x y : ℕ). x + y) first
        (subst
          (λ next.
            other_sum rounds next (c * 0x10000) (length region) (store_slice region a (a + k) w)
            ≡ other_sum rounds next (c * 0x10000) (length region) region)
          next (other_sum-store rounds (suc m)))
    where
      next : suc m * 0x10000 ≡ m * 0x10000 + 0x10000
      next = omega arith

      first :
          (if m * 0x10000 == c * 0x10000
            then 0
            else crc32 (
                slice
                  (store_slice region a (a + k) w)
                  (m * 0x10000)
                  (chunk_size (m * 0x10000) (length region))))
          ≡ (if m * 0x10000 == c * 0x10000
              then 0
              else crc32 (slice region (m * 0x10000) (chunk_size (m * 0x10000) (length region))))
      first = elim (Bool-cases (m * 0x10000 == c * 0x10000)) [
        | inl same ↦ rw same refl
        | inr differ ↦ rw differ (ap crc32 (other_chunk m (λ e. ground arith)))
      ]

-- The checksum of a region with a word stored in it, by the word's chunk before the store.
pub fwin_checksum-store :
    (region : Bytes) (a : ℕ) (w : Bytes)
    → length w ≡ 4
    → a + 4 ≤ length region
    → a % 0x10000 + 4 ≤ 0x10000
    → fwin_checksum (store_slice region a (a + 4) w)
      ≡ (crc_with_word
            (slice region (chunk_start a) (chunk_size (chunk_start a) (length region)))
            (a - chunk_start a)
            w
          + other_sum ((length region + 0xffff) / 0x10000) 0 (chunk_start a) (length region) region)
        % 2 ^ 32
fwin_checksum-store region a w size fits inside =
    fwin_checksum-chunk stored a (omega (arith, same_length))
    ∙ ap
        (λ (n : ℕ).
          (crc32 (slice stored start (chunk_size start n))
            + other_sum ((n + 0xffff) / 0x10000) 0 start n stored)
          % 2 ^ 32)
        same_length
    ∙ ap₂ (λ (x y : ℕ). (x + y) % 2 ^ 32)
        (ap crc32 (
          slice-store_within region a 4 w start (chunk_size start (length region)) size
            (omega arith) (omega arith) (omega arith)))
        (other_sum-store region a 4 w (a / 0x10000) size fits (omega arith) (omega arith)
          ((length region + 0xffff) / 0x10000) 0)
  where
    start : ℕ
    start = chunk_start a

    stored : Bytes
    stored = store_slice region a (a + 4) w

    same_length : length stored ≡ length region
    same_length = length-store region a 4 w size fits
