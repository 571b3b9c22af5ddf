-- ===== src/Updater/Operations.antt =====
-- One flash operation of kb7-updater-plan.py: its effect, its interruption, its command blocks and
-- the classification of an image that is found after it.
use kb.Base.{
  ℕ, zero, suc, ◌+◌, ◌%◌, bit_and, bit_or, Bool, true, false, ◌&&◌, not, Option, none, some, [],
  ◌∷◌, ◌++◌, ltb, leb, ◌==◌, if◌then◌else◌, length, take, drop, replicate, slice, Bytes, eq_bytes,
  Result, ok, err,
}
use kb.Updater.Regions.{
  PlanFault, plan_error, sector_bytes, block_bytes, core0_start, core1_envelope_end, Core,
}

-- `require(condition, message)`, and then the rest.
abbrev pub require : {A : Type 0} → Bool → Result PlanFault A → Result PlanFault A
require condition rest = if condition then rest else err plan_error

-- The actions of an operation; `other_action` stands for every other text.
pub data OperationAction : Type 0 where
  program_action erase_action other_action : OperationAction

-- The phases, by the text before the name of the region.
pub data Phase : Type 0 where
  poison stage commit : Core → Phase

-- The files that `payload_source` names.
pub data PayloadFile : Type 0 where
  sector_image : Core → PayloadFile
  poison_blocks : PayloadFile

pub record Operation : Type 0 where
  pub phase : Phase
  pub action : OperationAction
  pub offset : ℕ
  pub payload : Option Bytes
  pub payload_source : Option PayloadFile
  pub payload_offset : Option ℕ

-- `Operation.length`
abbrev pub operation_length : OperationAction → ℕ
operation_length program_action = block_bytes
operation_length erase_action = sector_bytes
operation_length other_action = sector_bytes

-- `b"\xff" * n`
unfoldable pub erased : ℕ → Bytes
erased n = replicate n 255

-- `image[start:end] = content`
abbrev pub store_slice : Bytes → ℕ → ℕ → Bytes → Bytes
store_slice image start end content = take start image ++ (content ++ drop end image)

-- `left & right for left, right in zip(xs, ys)`
abbrev pub and_bytes : Bytes → Bytes → Bytes
and_bytes [] ys = []
and_bytes (x ∷ xs) [] = []
and_bytes (x ∷ xs) (y ∷ ys) = bit_and x y ∷ and_bytes xs ys

-- `apply_operation` behind its first guard, for the fields of the operation.
unfoldable pub effect : Bytes → ℕ → OperationAction → Option Bytes → Result PlanFault Bytes
effect image offset erase_action payload =
    require (offset % sector_bytes == 0)
      (ok (store_slice image offset (offset + sector_bytes) (erased sector_bytes)))
effect image offset program_action none = err plan_error
effect image offset program_action (some content) =
    require (length content == block_bytes && offset % block_bytes == 0) (
      ok (
        store_slice image offset (offset + block_bytes)
          (and_bytes (slice image offset block_bytes) content)))
effect image offset other_action payload = err plan_error

unfoldable pub apply_operation : Bytes → Operation → Result PlanFault Bytes
apply_operation image operation =
    let end = operation.offset + operation_length operation.action in
    require
      (leb core0_start operation.offset && ltb operation.offset end && leb end core1_envelope_end)
      (effect image operation.offset operation.action operation.payload)

-- `all((old & new) == new for old, new in zip(xs, ys))`
abbrev pub is_clearing : Bytes → Bytes → Bool
is_clearing [] ys = true
is_clearing (x ∷ xs) [] = true
is_clearing (x ∷ xs) (y ∷ ys) = (bit_and x y == y) && is_clearing xs ys

-- The two `all` of `transition_reachable`, over the three images.
abbrev pub clears_through : Bytes → Bytes → Bytes → Bool
clears_through (b ∷ bs) (c ∷ cs) (a ∷ ps) =
    (bit_and b c == c) && (bit_and c a == a) && clears_through bs cs ps
clears_through _ _ _ = true

abbrev pub sets_through : Bytes → Bytes → Bytes → Bool
sets_through (b ∷ bs) (c ∷ cs) (a ∷ ps) =
    (bit_or b c == c) && (bit_or c a == a) && sets_through bs cs ps
sets_through _ _ _ = true

unfoldable pub transition_reachable : Bytes → Bytes → Bytes → OperationAction → Bool
transition_reachable preimage observed postimage action =
    if not (length preimage == length observed && length observed == length postimage)
    then false
    else elim action [
      | program_action ↦ clears_through preimage observed postimage
      | erase_action ↦ sets_through preimage observed postimage
      | other_action ↦ false
    ]

-- The comprehensions of `prefix_outcome`, with what is left of `cut`.
abbrev pub program_prefix : ℕ → Bytes → Bytes → Bytes
program_prefix zero bs ps = bs
program_prefix (suc cut) [] ps = []
program_prefix (suc cut) (b ∷ bs) [] = b ∷ bs
program_prefix (suc cut) (b ∷ bs) (a ∷ ps) = bit_and b a ∷ program_prefix cut bs ps

abbrev pub erase_prefix : ℕ → Bytes → Bytes
erase_prefix zero bs = bs
erase_prefix (suc cut) [] = []
erase_prefix (suc cut) (b ∷ bs) = 255 ∷ erase_prefix cut bs

unfoldable pub prefix_outcome : Bytes → Bytes → OperationAction → ℕ → Result PlanFault Bytes
prefix_outcome preimage postimage program_action cut =
    require (leb cut (length preimage) && length preimage == length postimage)
      (ok (program_prefix cut preimage postimage))
prefix_outcome preimage postimage erase_action cut =
    require (leb cut (length preimage) && length preimage == length postimage)
      (ok (erase_prefix cut preimage))
prefix_outcome preimage postimage other_action cut = err plan_error

-- The texts of `classify_reconciliation`.
pub data Reconciliation : Type 0 where
  spi_recovery_required exact_preimage exact_postimage : Reconciliation
  modeled_partial_rebuild_active_sector modeled_partial_sparse_gate : Reconciliation

abbrev pub partial_class : Phase → Reconciliation
partial_class (stage c) = modeled_partial_rebuild_active_sector
partial_class (commit c) = modeled_partial_sparse_gate
partial_class (poison c) = spi_recovery_required

unfoldable pub classify_reconciliation : Bytes → Bytes → Bytes → Operation → Reconciliation
classify_reconciliation preimage observed postimage operation =
    let start = operation.offset in
    let n = operation_length operation.action in
    if not (length preimage == length observed && length observed == length postimage)
    then spi_recovery_required
    else if eq_bytes observed preimage
    then exact_preimage
    else if eq_bytes observed postimage
    then exact_postimage
    else if not (
        eq_bytes (take start observed) (take start preimage)
        && eq_bytes (drop (start + n) observed) (drop (start + n) preimage))
    then spi_recovery_required
    else if not (
        transition_reachable (slice preimage start n) (slice observed start n)
          (slice postimage start n) operation.action)
    then spi_recovery_required
    else partial_class operation.phase
