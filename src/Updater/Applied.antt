-- ===== src/Updater/Applied.antt =====
-- What an operation of the planner leaves in the image: its own unit, and nothing else.
use kb.Base.{
  ℕ, ◌+◌, ◌%◌, ◌≤◌, ◌≡◌, sym, ap₂, ◌∙◌, Bool, true, ◌&&◌, Option, none, some, ◌++◌, append_assoc,
  arith, ltb, leb, ◌==◌, if◌then◌else◌, leb→le, ==_iff, ==_refl, and-eq-true, length, take, drop,
  length-append, length-take, length-drop, take-append-drop, take-append, drop-append, drop-drop,
  slice, length-slice, slice-append, Bytes, IsBytes, IsBytes-take, IsBytes-drop, Result, ok, err,
}
use kb.Updater.Regions.{
  PlanFault, plan_error, sector_bytes, block_bytes, core0_start, core1_envelope_end,
}
use kb.Updater.Operations.{
  require, OperationAction, program_action, erase_action, other_action, Operation, operation_length,
  erased, store_slice, and_bytes, effect, apply_operation, transition_reachable,
}
use kb.Updater.Bitwise.{
  length-erased, length-and_bytes, clears_through-and_bytes, sets_through-erased,
}

pub require-eq-ok :
    {A : Type 0} (c : Bool) (r : Result PlanFault A) (y : A)
    → require c r ≡ ok y
    → (c ≡ true) × (r ≡ ok y)
require-eq-ok c r y h = ground arith

pub require-eq-ok_value :
    {A : Type 0} (c : Bool) (x y : A)
    → (if c then ok x else err plan_error) ≡ ok y
    → (c ≡ true) × (x ≡ y)
require-eq-ok_value c x y h = ground arith

-- The middle of an image in three parts is replaced.
pub store_slice-append :
    (i n : ℕ) (pre old post content : Bytes)
    → length pre ≡ i
    → length old ≡ n
    → store_slice (pre ++ (old ++ post)) i (i + n) content ≡ pre ++ (content ++ post)
store_slice-append i n pre old post content hi hn =
    ap₂ (λ a b. a ++ (content ++ b)) (take-append i pre (old ++ post) hi)
      (rw (← append_assoc pre old post)
        (drop-append (i + n) (pre ++ old) post (omega (arith, length-append pre old))))

-- Every image has the three parts.
pub three_parts :
    (i n : ℕ) (image : Bytes) → image ≡ take i image ++ (slice image i n ++ drop (i + n) image)
three_parts i n image =
    rw (← drop-drop i n image, take-append-drop n (drop i image), take-append-drop i image)

-- A unit of an operation: inside the two envelopes of the cores.
abbrev pub InEnvelopes : ℕ → ℕ → Type 0
InEnvelopes offset n = (core0_start ≤ offset) × (offset + n ≤ core1_envelope_end)

-- From one image to the next, only the unit changes, and its bits go the way of the action.
abbrev pub IsTransition : Bytes → ℕ → OperationAction → Bytes → Type 0
IsTransition image offset action next =
    let n = operation_length action in
    (length next ≡ length image)
    × (take offset next ≡ take offset image)
    × (drop (offset + n) next ≡ drop (offset + n) image)
    × (transition_reachable (slice image offset n) (slice next offset n) (slice next offset n)
          action
        ≡ true)

-- An image that differs from another in its unit only.
pub parts_of_store :
    (i n : ℕ) (image content : Bytes)
    → i + n ≤ length image
    → length content ≡ n
    → (length (store_slice image i (i + n) content) ≡ length image)
      × (take i (store_slice image i (i + n) content) ≡ take i image)
      × (drop (i + n) (store_slice image i (i + n) content) ≡ drop (i + n) image)
      × (slice (store_slice image i (i + n) content) i n ≡ content)
parts_of_store i n image content fits e =
    let front : length (take i image) ≡ i = omega (arith, length-take i image) in
    let size : length (take i image ++ (content ++ drop (i + n) image)) ≡ length image = omega (
      arith,
      length-append (take i image) (content ++ drop (i + n) image),
      length-append content (drop (i + n) image),
      length-drop (i + n) image,
    ) in
    (
      size,
      take-append i (take i image) (content ++ drop (i + n) image) front,
      rw (← append_assoc (take i image) content (drop (i + n) image)) (
          drop-append (i + n) (take i image ++ content) (drop (i + n) image)
            (omega (arith, length-append (take i image) content))),
      slice-append i n (take i image) content (drop (i + n) image) front e,
    )

reachable_program :
    (old content : Bytes)
    → length old ≡ length content
    → transition_reachable old (and_bytes old content) (and_bytes old content) program_action ≡ true
unfolding transition_reachable
reachable_program old content e =
    rw (length-and_bytes old content e, ==_refl (length old), clears_through-and_bytes old content)

reachable_erase :
    (old : Bytes) (n : ℕ)
    → IsBytes old
    → length old ≡ n
    → transition_reachable old (erased n) (erased n) erase_action ≡ true
unfolding transition_reachable
reachable_erase old n b e = rw (length-erased n, e, ==_refl n, sets_through-erased old n b)

stored-IsTransition :
    (image : Bytes) (offset : ℕ) (action : OperationAction) (content : Bytes)
    → offset + operation_length action ≤ length image
    → length content ≡ operation_length action
    → transition_reachable (slice image offset (operation_length action)) content content action
      ≡ true
    → IsTransition image offset action
        (store_slice image offset (offset + operation_length action) content)
stored-IsTransition image offset action content fits e h =
    let parts = parts_of_store offset (operation_length action) image content fits e in
    (parts.0, parts.1, parts.2, rw parts.3 h)

effect-IsTransition :
    (image : Bytes) (offset : ℕ) (action : OperationAction) (payload : Option Bytes) (next : Bytes)
    → IsBytes image
    → offset + operation_length action ≤ length image
    → effect image offset action payload ≡ ok next
    → IsTransition image offset action next
unfolding effect
effect-IsTransition image offset erase_action payload next b fits h =
    let stored = require-eq-ok_value (offset % sector_bytes == 0) _ next h in
    let old = slice image offset sector_bytes in
    let bytes : IsBytes old = IsBytes-take sector_bytes _ (IsBytes-drop offset image b) in
    rw (← stored.1) (
      stored-IsTransition image offset erase_action (erased sector_bytes) fits
        (length-erased sector_bytes)
        (reachable_erase old sector_bytes bytes (length-slice image offset sector_bytes fits)))
effect-IsTransition image offset program_action none next b fits h = cc
effect-IsTransition image offset program_action (some content) next b fits h =
    let stored =
      require-eq-ok_value (length content == block_bytes && offset % block_bytes == 0) _ next h in
    let guards = and-eq-true (length content == block_bytes) _ stored.0 in
    let size : length content ≡ block_bytes = (==_iff _ block_bytes).0 guards.0 in
    let old = slice image offset block_bytes in
    let same : length old ≡ block_bytes = length-slice image offset block_bytes fits in
    rw (← stored.1) (
      stored-IsTransition image offset program_action (and_bytes old content) fits
        (length-and_bytes old content (same ∙ sym size) ∙ same)
        (reachable_program old content (same ∙ sym size)))
effect-IsTransition image offset other_action payload next b fits h = cc

pub apply_operation-effect :
    (image : Bytes) (operation : Operation) (next : Bytes)
    → apply_operation image operation ≡ ok next
    → effect image operation.offset operation.action operation.payload ≡ ok next
unfolding apply_operation
apply_operation-effect image operation next h = (require-eq-ok _ _ next h).1

-- An operation that is applied to an image of bytes which holds both envelopes lies inside the
-- envelopes; it keeps the size of the image and every byte outside its unit, and the unit goes to
-- its new content by cleared bits only, for a program, and by set bits only, for an erase.
pub apply_operation-IsTransition :
    (image : Bytes) (operation : Operation) (next : Bytes)
    → IsBytes image
    → core1_envelope_end ≤ length image
    → apply_operation image operation ≡ ok next
    → InEnvelopes operation.offset (operation_length operation.action)
      × IsTransition image operation.offset operation.action next
unfolding apply_operation
apply_operation-IsTransition image operation next b size h =
    let n = operation_length operation.action in
    let guards =
      require-eq-ok
        (leb core0_start operation.offset
          && ltb operation.offset (operation.offset + n)
          && leb (operation.offset + n) core1_envelope_end)
        _ next h in
    let outer = and-eq-true (leb core0_start operation.offset && _) _ guards.0 in
    let inner = and-eq-true (leb core0_start operation.offset) _ outer.0 in
    let low = leb→le _ _ inner.0 in
    let high : operation.offset + n ≤ core1_envelope_end = leb→le _ _ outer.1 in
    (
      (low, high),
      effect-IsTransition image operation.offset operation.action operation.payload next b
          (omega arith) guards.1,
    )
