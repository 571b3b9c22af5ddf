-- ===== src/Updater/Tests.antt =====
-- Witnesses for the planner: a sector that is erased and programmed, torn operations and a poison.
use kb.Base.{
  ℕ, ◌+◌, ◌-◌, ◌<◌, ◌≡◌, refl, ◌⊎◌, none, [], ◌∷◌, ◌++◌, arith, length, replicate, length-append,
  length-replicate, drop-append, slice, length-slice, Bytes, IsBytes, IsBytes-append,
  IsBytes-replicate, ok,
}
use kb.Updater.Regions.{sector_bytes, core0_start, core1_envelope_end, core0, core0_spec}
use kb.Updater.Operations.{
  erase_action, stage, Operation, erased, store_slice, effect, apply_operation, erase_prefix,
  prefix_outcome, exact_preimage, exact_postimage, modeled_partial_rebuild_active_sector,
  classify_reconciliation, transition_reachable,
}
use kb.Updater.Staging.{append_stage_operations}
use kb.Updater.Bitwise.{length-erased}
use kb.Updater.Applied.{parts_of_store, InEnvelopes, IsTransition, apply_operation-IsTransition}
use kb.Updater.Interrupted.{torn_operation_lem}
use kb.Updater.Reconciled.{IsAccounted, classify_reconciliation-IsAccounted}
use kb.Updater.Replay.{Staged}
use kb.Updater.Sectors.{append_stage_operations-Staged}
use kb.Updater.Commands.{cdb_program, cdb_erase, Carries, cdb-Carries}
use kb.Updater.Sequence.{poison_at, choose_poison}
use kb.Updater.Poison.{IsPoison, choose_poison-IsPoison}

-- `n` bytes `value`.
unfoldable filled : ℕ → ℕ → Bytes
filled n value = replicate n value

length-filled : (n value : ℕ) → length (filled n value) ≡ n
unfolding filled
length-filled n value = length-replicate n value

IsBytes-filled : (n value : ℕ) → value < 256 → IsBytes (filled n value)
unfolding filled
IsBytes-filled n value small = IsBytes-replicate n value small

-- A flash that holds the number 7 everywhere up to the end of the envelopes.
abbrev sevens : Bytes
sevens = filled core1_envelope_end 7

-- A staged envelope of core 0 that sets bits of it.
abbrev nines : Bytes
nines = filled 0x10000 9

append_stage_operations-Staged_example :
    Staged
      (record { operations = []; current = sevens })
      (store_slice sevens 0x11000 0x21000 nines)
      (append_stage_operations core0_spec nines (record { operations = []; current = sevens }))
append_stage_operations-Staged_example =
    append_stage_operations-Staged core0_spec 16 nines
      (record { operations = []; current = sevens }) (refl, refl, (omega arith, omega arith))
      (IsBytes-filled 0x10000 9 (omega arith)) (length-filled 0x10000 9)
      (IsBytes-filled core1_envelope_end 7 (omega arith))
      (omega (arith, length-filled core1_envelope_end 7))

abbrev erase_first : Operation
erase_first = record {
  phase = stage core0;
  action = erase_action;
  offset = core0_start;
  payload = none;
  payload_source = none;
  payload_offset = none;
}

abbrev erased_first : Bytes
erased_first = store_slice sevens core0_start (core0_start + sector_bytes) (erased sector_bytes)

erase_first_lem : apply_operation sevens erase_first ≡ ok erased_first
unfolding apply_operation effect
erase_first_lem = refl

apply_operation-IsTransition_example :
    InEnvelopes core0_start sector_bytes × IsTransition sevens core0_start erase_action erased_first
apply_operation-IsTransition_example =
    apply_operation-IsTransition sevens erase_first erased_first
      (IsBytes-filled core1_envelope_end 7 (omega arith))
      (omega (arith, length-filled core1_envelope_end 7)) erase_first_lem

-- The erase stops after five bytes.
torn_erase :
    prefix_outcome
      (slice sevens core0_start sector_bytes)
      (slice erased_first core0_start sector_bytes)
      erase_action
      5
    ≡ ok (erase_prefix 5 (slice sevens core0_start sector_bytes))
unfolding prefix_outcome
torn_erase =
    let before : length (slice sevens core0_start sector_bytes) ≡ sector_bytes =
      length-slice sevens core0_start sector_bytes
        (omega (arith, length-filled core1_envelope_end 7)) in
    let after : length (slice erased_first core0_start sector_bytes) ≡ sector_bytes =
      length-slice erased_first core0_start sector_bytes (
        omega (
          arith,
          length-filled core1_envelope_end 7,
          (parts_of_store core0_start sector_bytes sevens (erased sector_bytes)
              (omega (arith, length-filled core1_envelope_end 7)) (length-erased sector_bytes)).0,
        )) in
    rw (before, after)

torn_operation_lem_example :
    let found =
      store_slice sevens core0_start
        (core0_start + sector_bytes)
        (erase_prefix 5 (slice sevens core0_start sector_bytes)) in
    let class = classify_reconciliation sevens found erased_first erase_first in
    (class ≡ exact_preimage)
    ⊎ (class ≡ exact_postimage)
    ⊎ (class ≡ modeled_partial_rebuild_active_sector)
torn_operation_lem_example =
    torn_operation_lem sevens erase_first erased_first 5
      (erase_prefix 5 (slice sevens core0_start sector_bytes))
      (IsBytes-filled core1_envelope_end 7 (omega arith))
      (omega (arith, length-filled core1_envelope_end 7)) erase_first_lem torn_erase

-- An erase at 0, of which two bytes are done in an image of three.
abbrev erase_at_zero : Operation
erase_at_zero = record {
  phase = stage core0;
  action = erase_action;
  offset = 0;
  payload = none;
  payload_source = none;
  payload_offset = none;
}

abbrev zeros : Bytes
zeros = 0 ∷ 0 ∷ 0 ∷ []

abbrev blank : Bytes
blank = 255 ∷ 255 ∷ 255 ∷ []

abbrev half_erased : Bytes
half_erased = 255 ∷ 255 ∷ 0 ∷ []

half_erased_class :
    classify_reconciliation zeros half_erased blank erase_at_zero
    ≡ modeled_partial_rebuild_active_sector
unfolding classify_reconciliation transition_reachable
half_erased_class = refl

classify_reconciliation-IsAccounted_example : IsAccounted zeros half_erased blank erase_at_zero
classify_reconciliation-IsAccounted_example =
    classify_reconciliation-IsAccounted zeros half_erased blank erase_at_zero

cdb-Carries_example :
    (to_program : Bytes) × (to_erase : Bytes) × (cdb_program 0x11000 ≡ ok to_program)
    × (cdb_erase 0x11000 ≡ ok to_erase)
    × Carries 0x11000 to_program to_erase
cdb-Carries_example = cdb-Carries 0x11000 refl (omega arith)

-- A flash whose only erased byte is the fourth behind the first sector of core 0.
abbrev behind : Bytes
behind = 0 ∷ 0 ∷ 0 ∷ 255 ∷ filled (core1_envelope_end - 0x12004) 0

abbrev one_erased : Bytes
one_erased = filled 0x12000 0 ++ behind

fourth_lem : choose_poison one_erased core0_spec ≡ ok (poison_at 0x12003)
unfolding choose_poison
fourth_lem =
    rw (drop-append 0x12000 (filled 0x12000 0) behind (length-filled 0x12000 0), choose_poison)

choose_poison-IsPoison_example : IsPoison one_erased core0_spec (poison_at 0x12003) 0
choose_poison-IsPoison_example =
    choose_poison-IsPoison one_erased core0_spec (poison_at 0x12003) 0 fourth_lem
      (IsBytes-append (filled 0x12000 0) behind (IsBytes-filled 0x12000 0 (omega arith)) (
        IsBytes-append (0 ∷ 0 ∷ 0 ∷ 255 ∷ []) (filled (core1_envelope_end - 0x12004) 0)
          (omega arith, (omega arith, (omega arith, (omega arith, tt))))
          (IsBytes-filled (core1_envelope_end - 0x12004) 0 (omega arith))))
      (omega (
        arith,
        length-append (filled 0x12000 0) behind,
        length-filled 0x12000 0,
        length-filled (core1_envelope_end - 0x12004) 0,
      ))
      (omega arith) (omega arith)
