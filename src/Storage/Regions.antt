-- ===== src/Storage/Regions.antt =====
-- A slot of the flash is read from its own region, and what each image of a region holds.
use kb.Base.{
  ℕ, ◌+◌, ◌-◌, ◌*◌, ◌^◌, ◌≤◌, ◌<◌, ◌≡◌, refl, inl, inr, Option, none, some, ◌++◌, arith,
  Option-cases, length, drop, replicate, length-append, length-drop, length-replicate, take-append,
  drop-append, take-append_le, drop-append_le, drop-drop, replicate_split, slice, Bytes, le,
}
use kb.Storage.Header.{header_size, writing_state, valid_state, parse_header}
use kb.Storage.RoundTrip.{
  header_of, length-header_of, parse_header-valid, parse_header-writing, parse_header-erased,
}
use kb.Storage.Slots.{Stage, erase, header, payload, slot, generation_of}
use kb.Storage.Written.{payload_image, image_after}

module _ (slot_size : ℕ) (large : header_size ≤ slot_size) where
  head-inside :
      (index : ℕ) (pre region post : Bytes)
      → length pre ≡ index * slot_size
      → length region ≡ slot_size
      → slice (pre ++ (region ++ post)) (index * slot_size) header_size
        ≡ slice region (0 * slot_size) header_size
  head-inside index pre region post at sized =
      let z : 0 * slot_size ≡ 0 = omega arith in
      rw (z, drop-append (index * slot_size) pre (region ++ post) at)
        (take-append_le 64 region post (omega arith))

  content-inside :
      (index n : ℕ) (pre region post : Bytes)
      → length pre ≡ index * slot_size
      → length region ≡ slot_size
      → n + header_size ≤ slot_size
      → slice (pre ++ (region ++ post)) (index * slot_size + header_size) n
        ≡ slice region (0 * slot_size + header_size) n
  content-inside index n pre region post at sized fits =
      let z : 0 * slot_size + 64 ≡ 64 = omega arith in
      rw
        (
          z,
          ← drop-drop (index * slot_size) 64 (pre ++ (region ++ post)),
          drop-append (index * slot_size) pre (region ++ post) at,
          drop-append_le 64 region post (omega arith),
        )
        (take-append_le n (drop 64 region) post (omega (arith, length-drop 64 region)))

  -- The slot of an index is that of the region alone.
  pub slot-inside :
      (index : ℕ) (pre region post : Bytes)
      → length pre ≡ index * slot_size
      → length region ≡ slot_size
      → slot slot_size index (pre ++ (region ++ post)) ≡ slot slot_size 0 region
  unfolding slot
  slot-inside index pre region post at sized =
      elim (Option-cases (parse_header (slice region (0 * slot_size) header_size))) [
        | inl e ↦ ground (arith, head-inside index pre region post at sized)
        | inr (p, e) ↦ ground (
          arith,
          head-inside index pre region post at sized,
          content-inside index p.payload_length pre region post at sized,
        )
      ]

pub slot-generation-lt :
    (slot_size index : ℕ) (flash : Bytes) (v : Bytes × Bytes)
    → slot slot_size index flash ≡ some v
    → generation_of v < 2 ^ 32
unfolding slot
slot-generation-lt slot_size index flash v h =
    elim (Option-cases (parse_header (slice flash (index * slot_size) header_size))) [
      | inl e ↦ ground arith
      | inr (p, e) ↦ ground arith
    ]

module _ (slot_size generation : ℕ) (content : Bytes) (small : slot_size < 2 ^ 32)
    (word : generation < 2 ^ 32) (room : length content + header_size ≤ slot_size) where
  -- The header of a region and what follows it.
  head-region :
      (head rest : Bytes)
      → length head ≡ 64
      → slice (head ++ rest) (0 * slot_size) header_size ≡ head
  head-region head rest h =
      let z : 0 * slot_size ≡ 0 = omega arith in rw z (take-append 64 head rest h)

  content-region :
      (head rest : Bytes)
      → length head ≡ 64
      → slice (head ++ (content ++ rest)) (0 * slot_size + header_size) (length content) ≡ content
  content-region head rest h =
      let z : 0 * slot_size + 64 ≡ 64 = omega arith in
      rw (z, drop-append 64 head (content ++ rest) h)
        (take-append (length content) content rest refl)

  length-payload_image :
      (state : ℕ) → length (payload_image slot_size state generation content) ≡ slot_size
  length-payload_image state =
      let blank : Bytes = replicate (slot_size - 64 - length content) 255 in
      omega (
        arith,
        length-append (header_of state generation content) (content ++ blank),
        length-append content blank,
        length-header_of state generation content,
        length-replicate {A = ℕ} (slot_size - 64 - length content) 255,
      )

  slot-none :
      (head rest : Bytes)
      → length head ≡ 64
      → parse_header head ≡ none
      → slot slot_size 0 (head ++ rest) ≡ none
  unfolding slot
  slot-none head rest h e = ground (arith, head-region head rest h)

  -- Until the state word is complete the slot counts as empty.
  pub slot-image_after-none :
      (stage : Stage)
      → slot slot_size 0 (image_after slot_size generation content (some stage)) ≡ none
  slot-image_after-none erase =
      rw (replicate_split {A = ℕ} slot_size 64 255 (omega arith))
        (slot-none (replicate 64 255) (replicate (slot_size - 64) 255) refl parse_header-erased)
  slot-image_after-none header =
      slot-none (header_of writing_state generation content) (replicate (slot_size - 64) 255)
        (length-header_of _ _ _) (parse_header-writing _ _)
  slot-image_after-none payload =
      slot-none (header_of writing_state generation content)
        (content ++ replicate (slot_size - 64 - length content) 255) (length-header_of _ _ _)
        (parse_header-writing _ _)

  pub slot-image_after :
      slot slot_size 0 (image_after slot_size generation content none)
      ≡ some (le 4 generation, content)
  unfolding slot
  slot-image_after =
      let blank : Bytes = replicate (slot_size - 64 - length content) 255 in
      let head : Bytes = header_of valid_state generation content in
      ground (
        arith,
        head-region head (content ++ blank) (length-header_of _ _ _),
        content-region head blank (length-header_of _ _ _),
        parse_header-valid generation content word (omega arith),
      )

  pub length-image_after :
      (fail_after : Option Stage)
      → length (image_after slot_size generation content fail_after) ≡ slot_size
  length-image_after none = length-payload_image valid_state
  length-image_after (some erase) = length-replicate slot_size 255
  length-image_after (some header) = omega (
    arith,
    length-append (header_of writing_state generation content) (replicate (slot_size - 64) 255),
    length-header_of writing_state generation content,
    length-replicate {A = ℕ} (slot_size - 64) 255,
  )
  length-image_after (some payload) = length-payload_image writing_state
