-- ===== src/Storage/History.antt =====
-- Many commits in a row against their abstract meaning: the last one that completed.
use kb.Base.{
  ℕ, ◌+◌, ◌*◌, ◌^◌, ◌≤◌, ◌<◌, ◌≡◌, refl, ◌∙◌, inl, inr, Bool, true, ◌||◌, Option, none, List, [],
  ◌∷◌, ◌++◌, arith, ltb, ◌==◌, if◌then◌else◌, Bool-cases, length, replicate, length-replicate,
  replicate-append, Bytes, IsBytes, err,
}
use kb.Storage.Header.{value_error, header_size}
use kb.Storage.Slots.{Stage, erase, slot, active, commit}
use kb.Storage.Regions.{slot-image_after-none}
use kb.Storage.Atomic.{IsFlash, survivor, commit-IsCommitted, active-regions}

-- One call of `commit`, with the stage at which the power fails.
pub record Request : Type 0 where
  pub content : Bytes
  pub fail_after : Option Stage

-- `AtomicSlots(slot_size).flash`
unfoldable pub fresh_flash : ℕ → Bytes
fresh_flash slot_size = replicate (slot_size * 2) 255

-- The flash after a sequence of calls, each exception caught.
unfoldable pub run_commits : ℕ → List Request → Bytes → Bytes
run_commits slot_size [] flash = flash
run_commits slot_size (r ∷ rs) flash =
    run_commits slot_size rs (commit slot_size r.content r.fail_after flash).1

abbrev pub is_refused : ℕ → Bytes → Bool
is_refused slot_size content = length content == 0 || ltb slot_size (length content + header_size)

-- What a sequence of calls means: the payload of the last call that was not refused and did not
-- lose power.
abbrev pub last_completed : ℕ → List Request → Option Bytes → Option Bytes
last_completed slot_size [] old = old
last_completed slot_size (r ∷ rs) old =
    last_completed slot_size rs
      (if is_refused slot_size r.content then old else survivor r.fail_after r.content old)

abbrev pub AreBytes : List Request → Type 0
AreBytes [] = Unit
AreBytes (r ∷ rs) = IsBytes r.content × AreBytes rs

-- A payload that is empty or too long raises, and the flash stays.
pub commit-refused :
    (slot_size : ℕ) (content : Bytes) (fail_after : Option Stage) (flash : Bytes)
    → is_refused slot_size content ≡ true
    → commit slot_size content fail_after flash ≡ (err value_error, flash)
unfolding commit
commit-refused slot_size content fail_after flash h = rw h

module _ (slot_size : ℕ) where
  commit-step :
      (r : Request) (flash : Bytes)
      → IsFlash slot_size flash
      → IsBytes r.content
      → let flash' = (commit slot_size r.content r.fail_after flash).1 in
        IsFlash slot_size flash'
        × (active slot_size flash' ≡ (
            if is_refused slot_size r.content
            then active slot_size flash
            else survivor r.fail_after r.content (active slot_size flash)))
  commit-step r flash f b = elim (Bool-cases (is_refused slot_size r.content)) [
    | inl refused ↦
        rw (refused, commit-refused slot_size r.content r.fail_after flash refused) (f, refl)
    | inr fits ↦
        let done =
          commit-IsCommitted slot_size r.content r.fail_after flash f b (ground arith)
            (ground arith) in
        rw fits (record { two_slots = done.1; small = f.small }, done.2)
  ]

  -- However the calls of `commit` end, the active payload is that of the last one that completed.
  pub run_commits-active :
      (rs : List Request) (flash : Bytes)
      → IsFlash slot_size flash
      → AreBytes rs
      → active slot_size (run_commits slot_size rs flash)
        ≡ last_completed slot_size rs (active slot_size flash)
  unfolding run_commits
  run_commits-active [] flash f b = refl
  run_commits-active (r ∷ rs) flash f b =
      let step = commit-step r flash f b.0 in
      rw (← step.1)
        (run_commits-active rs (commit slot_size r.content r.fail_after flash).1 step.0 b.1)

module _ (slot_size : ℕ) (large : header_size ≤ slot_size) (small : slot_size < 2 ^ 32) where
  fresh_flash-halves : fresh_flash slot_size ≡ replicate slot_size 255 ++ replicate slot_size 255
  unfolding fresh_flash
  fresh_flash-halves =
      let e : slot_size * 2 ≡ slot_size + slot_size = omega arith in
      rw e (replicate-append slot_size slot_size 255)

  fresh_flash-IsFlash : IsFlash slot_size (fresh_flash slot_size)
  unfolding fresh_flash
  fresh_flash-IsFlash = record {
    two_slots = length-replicate {A = ℕ} (slot_size * 2) 255 ∙ omega arith;
    small = small;
  }

  fresh_flash-active : active slot_size (fresh_flash slot_size) ≡ none
  fresh_flash-active =
      let half : Bytes = replicate slot_size 255 in
      let sized : length half ≡ slot_size = length-replicate slot_size 255 in
      let empty : slot slot_size 0 half ≡ none =
        slot-image_after-none slot_size 0 [] small (omega arith) large erase in
      rw (fresh_flash-halves, active-regions slot_size large half half sized sized, empty)

  -- From a new store of slots that hold a header and are shorter than 2 ^ 32 bytes: after any
  -- sequence of calls of `commit` with byte payloads, the active payload is that of the last call
  -- that was neither refused nor cut off, and there is none before the first such call.
  pub run_commits-fresh :
      (rs : List Request)
      → AreBytes rs
      → active slot_size (run_commits slot_size rs (fresh_flash slot_size))
        ≡ last_completed slot_size rs none
  run_commits-fresh rs b =
      rw fresh_flash-active at
        (run_commits-active slot_size rs (fresh_flash slot_size) fresh_flash-IsFlash b)
