-- ===== src/Storage/Atomic.antt =====
-- A commit is atomic: whatever stage the power fails at, the old payload or the new one is active.
use kb.Base.{
  ℕ, ◌+◌, ◌*◌, ◌%◌, ◌^◌, ◌≤◌, ◌<◌, ◌≡◌, refl, ◌⊎◌, inl, inr, false, ◌||◌, Option, none, some, [],
  ◌++◌, append-nil, arith, ltb, ◌==◌, if◌then◌else◌, Bool-cases, length, take, drop, length-append,
  length-take, length-drop, take-append-drop, Bytes, IsBytes, le, Result,
}
use kb.Storage.Header.{Fault, header_size}
use kb.Storage.Slots.{
  Stage, is_newer, Target, slot, active, active_of, choose_target, generation_of, write_slot,
  commit,
}
use kb.Storage.Written.{image_after, result_of, write_slot_lem}
use kb.Storage.Regions.{
  slot-inside, slot-generation-lt, slot-image_after-none, slot-image_after, length-image_after,
}

-- The flash of `AtomicSlots(slot_size)`: two slots, of lengths that fit a header field.
pub record IsFlash (slot_size : ℕ) (flash : Bytes) : Type 0 where
  pub two_slots : length flash ≡ 2 * slot_size
  pub small : slot_size < 2 ^ 32

-- What is active after a commit that failed at the stage, or did not.
abbrev pub survivor : Option Stage → Bytes → Option Bytes → Option Bytes
survivor none new old = some new
survivor (some s) new old = old

-- The slots after a write to the target, the other slot unchanged.
abbrev after_write :
    Target → Option (Bytes × Bytes) → Option (Bytes × Bytes) → Option (Bytes × Bytes) → Option Bytes
after_write t image left right =
    if t.index == 0 then active_of image right else active_of left image

-- A new generation wins against the one that it was counted on from.
newest_wins :
    (left right : Option (Bytes × Bytes)) (content : Bytes)
    → ((v : Bytes × Bytes) → left ≡ some v → generation_of v < 2 ^ 32)
    → ((v : Bytes × Bytes) → right ≡ some v → generation_of v < 2 ^ 32)
    → let t = choose_target left right in
      after_write t (some (le 4 t.generation, content)) left right ≡ some content
newest_wins none none content hl hr = refl
newest_wins none (some r) content hl hr = ground (arith, hr r refl)
newest_wins (some l) none content hl hr = ground (arith, hl l refl)
newest_wins (some l) (some r) content hl hr = ground (arith, hl l refl, hr r refl)

-- Losing the slot that is written leaves the active payload.
loser_is_spare :
    (left right : Option (Bytes × Bytes))
    → after_write (choose_target left right) none left right ≡ active_of left right
loser_is_spare none none = refl
loser_is_spare none (some r) = refl
loser_is_spare (some l) none = refl
loser_is_spare (some l) (some r) = ground arith

module _ (slot_size generation : ℕ) (content : Bytes) (fail_after : Option Stage)
    (small : slot_size < 2 ^ 32) (word : generation < 2 ^ 32) (bytes : IsBytes content)
    (room : length content + header_size ≤ slot_size) (left right : Bytes)
    (left_sized : length left ≡ slot_size) (right_sized : length right ≡ slot_size) where
  abbrev image : Bytes
  image = image_after slot_size generation content fail_after

  write_first :
      write_slot slot_size
        (record { index = 0; generation = generation })
        content
        fail_after
        (left ++ right)
      ≡ (result_of fail_after, image ++ right)
  write_first =
      write_slot_lem slot_size 0 generation content [] left right (omega arith) left_sized small
        word bytes room fail_after

  write_second :
      write_slot slot_size
        (record { index = 1; generation = generation })
        content
        fail_after
        (left ++ right)
      ≡ (result_of fail_after, left ++ image)
  write_second =
      rw (append-nil right, append-nil image) at
        (write_slot_lem slot_size 1 generation content left right [] (omega (arith, left_sized))
          right_sized small word bytes room fail_after)

-- The slots of a flash of two regions.
module _ (slot_size : ℕ) (large : header_size ≤ slot_size) (left right : Bytes)
    (left_sized : length left ≡ slot_size) (right_sized : length right ≡ slot_size) where
  slot-first : slot slot_size 0 (left ++ right) ≡ slot slot_size 0 left
  slot-first = slot-inside slot_size large 0 [] left right (omega arith) left_sized

  slot-second : slot slot_size 1 (left ++ right) ≡ slot slot_size 0 right
  slot-second =
      rw (append-nil right) at
        (slot-inside slot_size large 1 left right [] (omega (arith, left_sized)) right_sized)

  pub active-regions :
      active slot_size (left ++ right) ≡ active_of (slot slot_size 0 left) (slot slot_size 0 right)
  unfolding active
  active-regions = rw (slot-first, slot-second)

choose_target-cases :
    (l r : Option (Bytes × Bytes))
    → ((g : ℕ) × (choose_target l r ≡ record { index = 0; generation = g }) × (g < 2 ^ 32))
      ⊎ ((g : ℕ) × (choose_target l r ≡ record { index = 1; generation = g }) × (g < 2 ^ 32))
choose_target-cases none none = inl (1, refl, omega arith)
choose_target-cases none (some r) = inl ((generation_of r + 1) % 2 ^ 32, refl, omega arith)
choose_target-cases (some l) none = inr ((generation_of l + 1) % 2 ^ 32, refl, omega arith)
choose_target-cases (some l) (some r) =
    elim (Bool-cases (is_newer (generation_of l) (generation_of r))) [
      | inl e ↦ inr ((generation_of l + 1) % 2 ^ 32, rw e, omega arith)
      | inr e ↦ inl ((generation_of r + 1) % 2 ^ 32, rw e, omega arith)
    ]

-- How a call of `commit` on the flash has ended, and what is active then.
abbrev pub IsCommitted : ℕ → Bytes → Option Stage → Bytes → Result Fault (Unit {0}) × Bytes → Type 0
IsCommitted slot_size content fail_after flash out =
    (out.0 ≡ result_of fail_after)
    × (length out.1 ≡ 2 * slot_size)
    × (active slot_size out.1 ≡ survivor fail_after content (active slot_size flash))

module _ (slot_size : ℕ) (content : Bytes) (small : slot_size < 2 ^ 32) (bytes : IsBytes content)
    (room : length content + header_size ≤ slot_size) (left right : Bytes)
    (left_sized : length left ≡ slot_size) (right_sized : length right ≡ slot_size) where
  abbrev left_slot : Option (Bytes × Bytes)
  left_slot = slot slot_size 0 left

  abbrev right_slot : Option (Bytes × Bytes)
  right_slot = slot slot_size 0 right

  wins :
      after_write
        (choose_target left_slot right_slot)
        (some (le 4 (choose_target left_slot right_slot).generation, content))
        left_slot
        right_slot
      ≡ some content
  wins =
      newest_wins left_slot right_slot content (λ v. slot-generation-lt slot_size 0 left v)
        (λ v. slot-generation-lt slot_size 0 right v)

  -- The active payload once the target holds an image.
  survives :
      (fail_after : Option Stage) (g : ℕ) (t : Target)
      → choose_target left_slot right_slot ≡ t
      → t.generation ≡ g
      → g < 2 ^ 32
      → after_write t
          (slot slot_size 0 (image_after slot_size g content fail_after))
          left_slot
          right_slot
        ≡ survivor fail_after content (active_of left_slot right_slot)
  survives none g t e eg w = rw (slot-image_after slot_size g content small w room, ← eg, ← e) wins
  survives (some s) g t e eg w =
      rw (slot-image_after-none slot_size g content small w room s, ← e)
        (loser_is_spare left_slot right_slot)

  module _ (fail_after : Option Stage) (g : ℕ) (w : g < 2 ^ 32) where
    abbrev new_region : Bytes
    new_region = image_after slot_size g content fail_after

    new_sized : length new_region ≡ slot_size
    new_sized = length-image_after slot_size g content small w room fail_after

    large : header_size ≤ slot_size
    large = omega (arith, room)

    before : active slot_size (left ++ right) ≡ active_of left_slot right_slot
    before = active-regions slot_size large left right left_sized right_sized

    first-IsCommitted :
        choose_target left_slot right_slot ≡ record { index = 0; generation = g }
        → IsCommitted slot_size content fail_after
            (left ++ right)
            (result_of fail_after, new_region ++ right)
    first-IsCommitted e = (
      refl,
      omega (arith, length-append new_region right, new_sized, right_sized),
      rw (active-regions slot_size large new_region right new_sized right_sized, before)
          (survives fail_after g (record { index = 0; generation = g }) e refl w),
    )

    second-IsCommitted :
        choose_target left_slot right_slot ≡ record { index = 1; generation = g }
        → IsCommitted slot_size content fail_after
            (left ++ right)
            (result_of fail_after, left ++ new_region)
    second-IsCommitted e = (
      refl,
      omega (arith, length-append left new_region, new_sized, left_sized),
      rw (active-regions slot_size large left new_region left_sized new_sized, before)
          (survives fail_after g (record { index = 1; generation = g }) e refl w),
    )

  write_slot-IsCommitted :
      (fail_after : Option Stage)
      → IsCommitted slot_size content fail_after (left ++ right) (
          write_slot slot_size
            (choose_target left_slot right_slot)
            content
            fail_after
            (left ++ right))
  write_slot-IsCommitted fail_after = elim (choose_target-cases left_slot right_slot) [
    | inl (g, e, w) ↦
        rw
          (
            e,
            write_first slot_size g content fail_after small w bytes room left right left_sized
                right_sized,
          )
          (first-IsCommitted fail_after g w e)
    | inr (g, e, w) ↦
        rw
          (
            e,
            write_second slot_size g content fail_after small w bytes room left right left_sized
                right_sized,
          )
          (second-IsCommitted fail_after g w e)
  ]

  commit-regions :
      (fail_after : Option Stage)
      → 0 < length content
      → IsCommitted slot_size content fail_after
          (left ++ right)
          (commit slot_size content fail_after (left ++ right))
  unfolding commit
  commit-regions fail_after some_bytes =
      rw
        (
          slot-first slot_size (omega (arith, room)) left right left_sized right_sized,
          slot-second slot_size (omega (arith, room)) left right left_sized right_sized,
          enters,
        )
        (write_slot-IsCommitted fail_after)
    where
      enters : (length content == 0 || ltb slot_size (length content + header_size)) ≡ false
      enters = ground (arith, some_bytes, room)

-- A commit of a payload that fits, on a flash of two slots, ends as the failing stage says. It
-- keeps the size of the flash. When no stage fails the new payload is active, and when one fails
-- the payload that was active before still is.
pub commit-IsCommitted :
    (slot_size : ℕ) (content : Bytes) (fail_after : Option Stage) (flash : Bytes)
    → IsFlash slot_size flash
    → IsBytes content
    → 0 < length content
    → length content + header_size ≤ slot_size
    → IsCommitted slot_size content fail_after flash (commit slot_size content fail_after flash)
commit-IsCommitted slot_size content fail_after flash f bytes some_bytes room =
    rw (take-append-drop slot_size flash) at (
      commit-regions slot_size content f.small bytes room (take slot_size flash)
        (drop slot_size flash) (omega (arith, length-take slot_size flash, f.two_slots))
        (omega (arith, length-drop slot_size flash, f.two_slots)) fail_after some_bytes)
