-- ===== src/Storage/Written.antt =====
-- The images of a slot that `write_slot` leaves, stage by stage.
use kb.Base.{
  ℕ, ◌+◌, ◌-◌, ◌*◌, ◌^◌, ◌≤◌, ◌<◌, ◌≡◌, Option, none, some, [], ◌++◌, append_assoc, arith, length,
  replicate, length-replicate, take-append, drop-append, drop-drop, replicate_split, splice, Bytes,
  IsBytes, le, Result, ok, err,
}
use kb.Storage.Header.{Fault, power_loss, header_size, writing_state, valid_state, make_header}
use kb.Storage.Nor.{program}
use kb.Storage.Programmed.{program-inside, Writable-erased}
use kb.Storage.RoundTrip.{
  header_of, make_header_lem, header_front, header_tail, header_of-parts, length-header_of,
  IsBytes-header_of,
}
use kb.Storage.Slots.{Stage, erase, header, payload, write_slot}

module _ (slot_size : ℕ) where
  abbrev pub erased_image : Bytes
  erased_image = replicate slot_size 255

  abbrev pub header_image : ℕ → Bytes → Bytes
  header_image generation content =
      header_of writing_state generation content ++ replicate (slot_size - header_size) 255

  -- The header in the given state, the payload, and what stays erased.
  abbrev pub payload_image : ℕ → ℕ → Bytes → Bytes
  payload_image state generation content =
      header_of state generation content
      ++ (content ++ replicate (slot_size - header_size - length content) 255)

  abbrev pub image_after : ℕ → Bytes → Option Stage → Bytes
  image_after generation content none = payload_image valid_state generation content
  image_after generation content (some erase) = erased_image
  image_after generation content (some header) = header_image generation content
  image_after generation content (some payload) = payload_image writing_state generation content

abbrev pub result_of : Option Stage → Result Fault (Unit {0})
result_of none = ok tt
result_of (some s) = err power_loss

module _ (slot_size : ℕ) (index generation : ℕ) (content pre region post : Bytes)
    (at : length pre ≡ index * slot_size) (sized : length region ≡ slot_size)
    (small : slot_size < 2 ^ 32) (word : generation < 2 ^ 32) (bytes : IsBytes content)
    (room : length content + header_size ≤ slot_size) where
  erase_step :
      splice (pre ++ (region ++ post)) (index * slot_size) (replicate slot_size 255)
      ≡ pre ++ (erased_image slot_size ++ post)
  erase_step = rw (
    take-append (index * slot_size) pre (region ++ post) at,
    length-replicate {A = ℕ} slot_size 255,
    ← drop-drop (index * slot_size) slot_size (pre ++ (region ++ post)),
    drop-append (index * slot_size) pre (region ++ post) at,
    drop-append slot_size region post sized,
    append_assoc pre (replicate slot_size 255) post,
  )

  header_step :
      program
        (index * slot_size)
        (header_of writing_state generation content)
        (pre ++ (erased_image slot_size ++ post))
      ≡ (ok tt, pre ++ (header_image slot_size generation content ++ post))
  header_step = rw erased_parts (
      program-inside (index * slot_size) pre [] (header_of writing_state generation content)
        (replicate (length (header_of writing_state generation content)) 255)
        (replicate (slot_size - header_size) 255) post (omega (arith, at))
        (Writable-erased _ (IsBytes-header_of writing_state generation content)))
    where
      erased_parts :
          replicate {A = ℕ} slot_size 255
          ≡ replicate (length (header_of writing_state generation content)) 255
            ++ replicate (slot_size - header_size) 255
      erased_parts = rw length-header_of (replicate_split slot_size 64 255 (omega arith))

  payload_step :
      program
        (index * slot_size + header_size)
        content
        (pre ++ (header_image slot_size generation content ++ post))
      ≡ (ok tt, pre ++ (payload_image slot_size writing_state generation content ++ post))
  payload_step = rw erased_parts (
      program-inside (index * slot_size + header_size) pre
        (header_of writing_state generation content) content (replicate (length content) 255)
        (replicate (slot_size - header_size - length content) 255) post
        (omega (arith, at, length-header_of writing_state generation content))
        (Writable-erased content bytes))
    where
      erased_parts :
          replicate {A = ℕ} (slot_size - header_size) 255
          ≡ replicate (length content) 255
            ++ replicate (slot_size - header_size - length content) 255
      erased_parts = replicate_split (slot_size - 64) (length content) 255 (omega arith)

  state_step :
      program
        (index * slot_size + 8)
        (le 4 valid_state)
        (pre ++ (payload_image slot_size writing_state generation content ++ post))
      ≡ (ok tt, pre ++ (payload_image slot_size valid_state generation content ++ post))
  state_step =
      rw (parts writing_state, parts valid_state)
        (program-inside (index * slot_size + 8) pre header_front (le 4 valid_state)
          (le 4 writing_state) (header_tail generation content ++ rest) post (omega (arith, at))
          (omega arith))
    where
      rest : Bytes
      rest = content ++ replicate (slot_size - header_size - length content) 255

      parts :
          (state : ℕ)
          → header_of state generation content ++ rest
            ≡ header_front ++ (le 4 state ++ (header_tail generation content ++ rest))
      parts state = rw (header_of-parts state generation content) (simp append_assoc)

  head_lem :
      make_header writing_state generation content ≡ ok (header_of writing_state generation content)
  head_lem = make_header_lem writing_state generation content (omega arith) word (omega arith)

  pub write_slot_lem :
      (fail_after : Option Stage)
      → write_slot slot_size
          (record { index = index; generation = generation })
          content
          fail_after
          (pre ++ (region ++ post))
        ≡ (
          result_of fail_after,
          pre ++ (image_after slot_size generation content fail_after ++ post),
        )
  unfolding write_slot
  write_slot_lem none = ground (arith, erase_step, head_lem, header_step, payload_step, state_step)
  write_slot_lem (some erase) = ground (arith, erase_step)
  write_slot_lem (some header) = ground (arith, erase_step, head_lem, header_step)
  write_slot_lem (some payload) = ground (arith, erase_step, head_lem, header_step, payload_step)
