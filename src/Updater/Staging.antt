-- ===== src/Updater/Staging.antt =====
-- `append_stage_operations` of kb7-updater-plan.py: the sectors and blocks that bring an envelope to
-- its staged image.
use kb.Base.{
  ℕ, zero, suc, ◌+◌, ◌-◌, ◌/◌, not, none, some, List, [], ◌∷◌, ◌++◌, ◌==◌, if◌then◌else◌, length,
  slice, Bytes, eq_bytes, Result, ok, err,
}
use kb.Updater.Regions.{PlanFault, sector_bytes, block_bytes, RegionSpec, envelope_length}
use kb.Updater.Operations.{
  require, program_action, erase_action, stage, sector_image, Operation, erased, apply_operation,
  is_clearing,
}

-- `operations` and `current`, which the function extends.
pub record Plan : Type 0 where
  pub operations : List Operation
  pub current : Bytes

-- `operations.append(operation)` and `apply_operation(current, operation)`
unfoldable pub append_operation : Plan → Operation → Result PlanFault Plan
append_operation plan operation = elim (apply_operation plan.current operation) [
  | err e ↦ err e
  | ok image ↦ ok (record { operations = plan.operations ++ (operation ∷ []); current = image })
]

module _ (spec : RegionSpec) (staged_envelope : Bytes) where
  abbrev pub erase_operation : ℕ → Operation
  erase_operation sector = record {
    phase = stage spec.name;
    action = erase_action;
    offset = sector;
    payload = none;
    payload_source = none;
    payload_offset = none;
  }

  abbrev pub program_operation : ℕ → Bytes → Operation
  program_operation block content = record {
    phase = stage spec.name;
    action = program_action;
    offset = block;
    payload = some content;
    payload_source = some (sector_image spec.name);
    payload_offset = some (block - spec.start);
  }

  -- The body of the loop over the blocks of a sector.
  unfoldable pub stage_block : ℕ → Plan → Result PlanFault Plan
  stage_block block plan =
      let content = slice staged_envelope (block - spec.start) block_bytes in
      if eq_bytes (slice plan.current block block_bytes) content
      then ok plan
      else require (not (eq_bytes content (erased block_bytes))) (
          require (is_clearing (slice plan.current block block_bytes) content)
            (append_operation plan (program_operation block content)))

  -- `for block in range(sector, sector + SECTOR_BYTES, BLOCK_BYTES)`, with the rounds left.
  unfoldable pub stage_blocks : ℕ → ℕ → Plan → Result PlanFault Plan
  stage_blocks zero block plan = ok plan
  stage_blocks (suc rounds) block plan = elim (stage_block block plan) [
    | err e ↦ err e
    | ok next ↦ stage_blocks rounds (block + block_bytes) next
  ]

  -- The body of the loop over the sectors, from the test for an erase.
  unfoldable pub prepare_sector : ℕ → Plan → Result PlanFault Plan
  prepare_sector sector plan =
      if is_clearing (slice plan.current sector sector_bytes)
        (slice staged_envelope (sector - spec.start) sector_bytes)
      then ok plan
      else append_operation plan (erase_operation sector)

  unfoldable pub stage_sector : ℕ → Plan → Result PlanFault Plan
  stage_sector sector plan =
      if eq_bytes (slice plan.current sector sector_bytes)
        (slice staged_envelope (sector - spec.start) sector_bytes)
      then ok plan
      else elim (prepare_sector sector plan) [
        | err e ↦ err e
        | ok prepared ↦ stage_blocks 8 sector prepared
      ]

  -- `for sector in range(spec.start, spec.envelope_end, SECTOR_BYTES)`
  unfoldable pub stage_sectors : ℕ → ℕ → Plan → Result PlanFault Plan
  stage_sectors zero sector plan = ok plan
  stage_sectors (suc rounds) sector plan = elim (stage_sector sector plan) [
    | err e ↦ err e
    | ok next ↦ stage_sectors rounds (sector + sector_bytes) next
  ]

  -- `len(range(spec.start, spec.envelope_end, SECTOR_BYTES))`
  abbrev pub sector_count : ℕ
  sector_count = (spec.envelope_end - spec.start + (sector_bytes - 1)) / sector_bytes

  unfoldable pub append_stage_operations : Plan → Result PlanFault Plan
  append_stage_operations plan =
      require (length staged_envelope == envelope_length spec)
        (elim (stage_sectors sector_count spec.start plan) [
          | err e ↦ err e
          | ok result ↦
              require
                (eq_bytes (slice result.current spec.start (envelope_length spec)) staged_envelope)
                (ok result)
        ])
