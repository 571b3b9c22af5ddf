-- ===== src/Updater/Interrupted.antt =====
-- An operation of the planner that stops inside its unit, and what the reconciliation makes of the
-- image that is found.
use kb.Base.{
  ℕ, ◌+◌, ◌%◌, ◌≤◌, bit_and, ◌≡◌, refl, sym, ◌∙◌, ◌⊎◌, inl, inr, Bool, true, false, ◌&&◌, Option,
  none, some, [], ◌∷◌, arith, ◌==◌, if◌then◌else◌, ==_iff, ==_refl, and-eq-true, length, take, drop,
  slice, length-slice, Bytes, IsBytes, eq_bytes, eq_bytes_refl, IsBytes-take, IsBytes-drop,
  bit_and_absorb, ok,
}
use kb.Updater.Regions.{sector_bytes, block_bytes, core1_envelope_end}
use kb.Updater.Operations.{
  OperationAction, program_action, erase_action, other_action, Operation, operation_length, erased,
  store_slice, and_bytes, is_clearing, program_prefix, erase_prefix, effect, apply_operation,
  transition_reachable, prefix_outcome, Reconciliation, exact_preimage, exact_postimage,
  partial_class, classify_reconciliation,
}
use kb.Updater.Bitwise.{
  length-erased, length-and_bytes, clears_through-program_prefix, sets_through-erase_prefix,
  length-program_prefix, length-erase_prefix,
}
use kb.Updater.Applied.{
  require-eq-ok_value, parts_of_store, apply_operation-effect, apply_operation-IsTransition,
}

-- Programming twice what was programmed clears the bits once.
is_clearing-program : (xs ys : Bytes) → is_clearing xs (and_bytes xs ys) ≡ true
is_clearing-program [] ys = refl
is_clearing-program (x ∷ xs) [] = refl
is_clearing-program (x ∷ xs) (y ∷ ys) =
    rw (bit_and_absorb x y, ==_refl (bit_and x y)) (is_clearing-program xs ys)

-- A prefix of a program or of an erase lies on the way to its end.
abbrev IsOnTheWay : Bytes → Bytes → Bytes → OperationAction → Type 0
IsOnTheWay old partial new action =
    (length partial ≡ length old) × (transition_reachable old partial new action ≡ true)

program-IsOnTheWay :
    (cut : ℕ) (old content : Bytes)
    → length old ≡ length content
    → IsOnTheWay old
        (program_prefix cut old (and_bytes old content))
        (and_bytes old content)
        program_action
unfolding transition_reachable
program-IsOnTheWay cut old content e =
    let new = and_bytes old content in
    let size = length-program_prefix cut old new in
    (
      size,
      rw (
        size,
        length-and_bytes old content e,
        ==_refl (length old),
        clears_through-program_prefix cut old new (is_clearing-program old content),
      ),
    )

erase-IsOnTheWay :
    (cut : ℕ) (old : Bytes) (n : ℕ)
    → IsBytes old
    → length old ≡ n
    → IsOnTheWay old (erase_prefix cut old) (erased n) erase_action
unfolding transition_reachable
erase-IsOnTheWay cut old n b e =
    let size = length-erase_prefix cut old in
    (
      size,
      rw (
        size,
        ← e,
        length-erased (length old),
        ==_refl (length old),
        sets_through-erase_prefix cut old b,
      ),
    )

prefix-IsOnTheWay :
    (image : Bytes) (offset : ℕ) (action : OperationAction) (payload : Option Bytes) (cut : ℕ)
    (next partial : Bytes)
    → IsBytes image
    → offset + operation_length action ≤ length image
    → effect image offset action payload ≡ ok next
    → prefix_outcome
        (slice image offset (operation_length action))
        (slice next offset (operation_length action))
        action
        cut
      ≡ ok partial
    → IsOnTheWay
        (slice image offset (operation_length action))
        partial
        (slice next offset (operation_length action))
        action
unfolding effect prefix_outcome
prefix-IsOnTheWay image offset erase_action payload cut next partial b fits h t =
    let stored = require-eq-ok_value (offset % sector_bytes == 0) _ next h in
    let old = slice image offset sector_bytes in
    let same : length old ≡ sector_bytes = length-slice image offset sector_bytes fits in
    let parts =
      parts_of_store offset sector_bytes image (erased sector_bytes) fits
        (length-erased sector_bytes) in
    let bytes : IsBytes old = IsBytes-take sector_bytes _ (IsBytes-drop offset image b) in
    let cut_short = require-eq-ok_value _ (erase_prefix cut old) partial t in
    rw (← cut_short.1, ← stored.1, parts.3) (erase-IsOnTheWay cut old sector_bytes bytes same)
prefix-IsOnTheWay image offset program_action none cut next partial b fits h t = cc
prefix-IsOnTheWay image offset program_action (some content) cut next partial b fits h t =
    let stored =
      require-eq-ok_value (length content == block_bytes && offset % block_bytes == 0) _ next h in
    let guards = and-eq-true (length content == block_bytes) _ stored.0 in
    let size : length content ≡ block_bytes = (==_iff _ block_bytes).0 guards.0 in
    let old = slice image offset block_bytes in
    let same : length old ≡ block_bytes = length-slice image offset block_bytes fits in
    let parts =
      parts_of_store offset block_bytes image (and_bytes old content) fits
        (length-and_bytes old content (same ∙ sym size) ∙ same) in
    let new_unit : slice next offset block_bytes ≡ and_bytes old content =
      rw (← stored.1) parts.3 in
    let cut_short =
      require-eq-ok_value _ (program_prefix cut old (slice next offset block_bytes)) partial t in
    rw (← cut_short.1, new_unit) (program-IsOnTheWay cut old content (same ∙ sym size))
prefix-IsOnTheWay image offset other_action payload cut next partial b fits h t = cc

-- The class of an image that differs from its neighbours inside the unit only.
classify-inside :
    (preimage observed postimage : Bytes) (operation : Operation)
    → length preimage ≡ length observed
    → length observed ≡ length postimage
    → take operation.offset observed ≡ take operation.offset preimage
    → drop (operation.offset + operation_length operation.action) observed
      ≡ drop (operation.offset + operation_length operation.action) preimage
    → transition_reachable
        (slice preimage operation.offset (operation_length operation.action))
        (slice observed operation.offset (operation_length operation.action))
        (slice postimage operation.offset (operation_length operation.action))
        operation.action
      ≡ true
    → let class = classify_reconciliation preimage observed postimage operation in
      (class ≡ exact_preimage) ⊎ (class ≡ exact_postimage) ⊎ (class ≡ partial_class operation.phase)
unfolding classify_reconciliation
classify-inside preimage observed postimage operation e f front back reach =
    rw
      (
        e,
        f,
        ==_refl (length postimage),
        front,
        back,
        reach,
        eq_bytes_refl (take operation.offset preimage),
        eq_bytes_refl (drop (operation.offset + operation_length operation.action) preimage),
      )
      (decide (eq_bytes observed preimage) (eq_bytes observed postimage)
        (partial_class operation.phase))
  where
    decide :
        (s t : Bool) (r : Reconciliation)
        → let class = if s then exact_preimage else if t then exact_postimage else r in
          (class ≡ exact_preimage) ⊎ (class ≡ exact_postimage) ⊎ (class ≡ r)
    decide true t r = inl refl
    decide false true r = inr (inl refl)
    decide false false r = inr (inr refl)

-- When an operation stops after any number of bytes of its unit, the image that is found is
-- classified as the exact image before it, the exact image after it, or by the phase: a partial
-- rebuild while staging, a partial gate while committing, and SPI recovery while poisoning.
pub torn_operation_lem :
    (image : Bytes) (operation : Operation) (next : Bytes) (cut : ℕ) (partial : Bytes)
    → IsBytes image
    → core1_envelope_end ≤ length image
    → apply_operation image operation ≡ ok next
    → prefix_outcome
        (slice image operation.offset (operation_length operation.action))
        (slice next operation.offset (operation_length operation.action))
        operation.action
        cut
      ≡ ok partial
    → let found =
        store_slice image operation.offset
          (operation.offset + operation_length operation.action)
          partial in
      let class = classify_reconciliation image found next operation in
      (class ≡ exact_preimage) ⊎ (class ≡ exact_postimage) ⊎ (class ≡ partial_class operation.phase)
torn_operation_lem image operation next cut partial b size h t =
    let n = operation_length operation.action in
    let whole = apply_operation-IsTransition image operation next b size h in
    let fits : operation.offset + n ≤ length image = omega (arith, whole.0.1) in
    let way =
      prefix-IsOnTheWay image operation.offset operation.action operation.payload cut next partial b
        fits (apply_operation-effect image operation next h) t in
    let same = way.0 ∙ length-slice image operation.offset n fits in
    let parts = parts_of_store operation.offset n image partial fits same in
    classify-inside image (store_slice image operation.offset (operation.offset + n) partial) next
      operation (sym parts.0) (parts.0 ∙ sym whole.1.0) parts.1 parts.2 (rw parts.3 way.1)
