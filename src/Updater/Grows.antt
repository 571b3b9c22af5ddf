-- ===== src/Updater/Grows.antt =====
-- Every loop of the planner only appends operations, and they make its image.
use kb.Base.{
  ℕ, zero, suc, ◌+◌, ◌-◌, ◌≡◌, refl, sym, ap, ◌∙◌, Bool, true, false, not, List, [], ◌∷◌, ◌++◌,
  append_assoc, append-nil, ◌==◌, if◌then◌else◌, length, slice, Bytes, eq_bytes, Result, ok, err,
}
use kb.Updater.Regions.{PlanFault, sector_bytes, block_bytes, RegionSpec, envelope_length}
use kb.Updater.Operations.{require, Operation, erased, is_clearing, apply_operation}
use kb.Updater.Staging.{
  Plan, append_operation, program_operation, erase_operation, stage_block, stage_blocks,
  prepare_sector, stage_sector, stage_sectors, sector_count, append_stage_operations,
}
use kb.Updater.Replay.{replay, replay-append, next_step}

-- The next plan has more operations, and they make its image.
abbrev pub Grows : Plan → Plan → Type 0
Grows plan next =
    (added : List Operation) × (next.operations ≡ plan.operations ++ added)
    × (replay plan.current added ≡ ok next.current)

pub Grows-refl : (plan : Plan) → Grows plan plan
Grows-refl plan = ([], sym (append-nil plan.operations), refl)

pub Grows-trans : (a b c : Plan) → Grows a b → Grows b c → Grows a c
Grows-trans a b c p q = (
  p.0 ++ q.0,
  q.1 ∙ ap (λ ops. ops ++ q.0) p.1 ∙ append_assoc a.operations p.0 q.0,
  replay-append a.current p.0 q.0 b.current p.2 ∙ q.2,
)

-- A step whose every result grows the plan.
abbrev pub GrowsAll : Plan → Result PlanFault Plan → Type 0
GrowsAll plan result = (next : Plan) → result ≡ ok next → Grows plan next

pub ok-GrowsAll : (plan : Plan) → GrowsAll plan (ok plan)
ok-GrowsAll plan next h = rw (← same) (Grows-refl plan)
  where
    same : plan ≡ next
    same = cc

pub next_step-GrowsAll :
    (plan : Plan) (result : Result PlanFault Plan) (step : Plan → Result PlanFault Plan)
    → GrowsAll plan result
    → ((middle : Plan) → GrowsAll middle (step middle))
    → GrowsAll plan (next_step result step)
next_step-GrowsAll plan (err e) step first second next h = cc
next_step-GrowsAll plan (ok middle) step first second next h =
    Grows-trans plan middle next (first middle refl) (second middle next h)

pub require-GrowsAll :
    (plan : Plan) (c : Bool) (result : Result PlanFault Plan)
    → GrowsAll plan result
    → GrowsAll plan (require c result)
require-GrowsAll plan true result first next h = first next h
require-GrowsAll plan false result first next h = cc

pub if-GrowsAll :
    (plan : Plan) (c : Bool) (first second : Result PlanFault Plan)
    → GrowsAll plan first
    → GrowsAll plan second
    → GrowsAll plan (if c then first else second)
if-GrowsAll plan true first second p q = p
if-GrowsAll plan false first second p q = q

pub append_operation-GrowsAll :
    (plan : Plan) (operation : Operation) → GrowsAll plan (append_operation plan operation)
unfolding append_operation
append_operation-GrowsAll plan operation next h =
    made (apply_operation plan.current operation) refl h
  where
    made :
        (r : Result PlanFault Bytes)
        → apply_operation plan.current operation ≡ r
        → (elim r [
          | err e ↦ err e
          | ok image ↦
              ok (record { operations = plan.operations ++ (operation ∷ []); current = image })
        ])
          ≡ ok next
        → Grows plan next
    made (err e) p q = cc
    made (ok image) p q =
        let same : record { operations = plan.operations ++ (operation ∷ []); current = image }
            ≡ next =
          cc in
        rw (← same) (operation ∷ [], refl, rw (p, replay))

module _ (spec : RegionSpec) (staged : Bytes) where
  stage_block-GrowsAll :
      (block : ℕ) (plan : Plan) → GrowsAll plan (stage_block spec staged block plan)
  unfolding stage_block
  stage_block-GrowsAll block plan =
      let content = slice staged (block - spec.start) block_bytes in
      let old = slice plan.current block block_bytes in
      if-GrowsAll plan (eq_bytes old content) _ _ (ok-GrowsAll plan) (
        require-GrowsAll plan (not (eq_bytes content (erased block_bytes))) _ (
          require-GrowsAll plan (is_clearing old content) _
            (append_operation-GrowsAll plan (program_operation spec staged block content))))

  stage_blocks-GrowsAll :
      (rounds block : ℕ) (plan : Plan) → GrowsAll plan (stage_blocks spec staged rounds block plan)
  unfolding stage_blocks
  stage_blocks-GrowsAll zero block plan = ok-GrowsAll plan
  stage_blocks-GrowsAll (suc rounds) block plan =
      next_step-GrowsAll plan (stage_block spec staged block plan) _
        (stage_block-GrowsAll block plan)
        (λ middle. stage_blocks-GrowsAll rounds (block + block_bytes) middle)

  stage_sector-GrowsAll :
      (sector : ℕ) (plan : Plan) → GrowsAll plan (stage_sector spec staged sector plan)
  unfolding stage_sector prepare_sector
  stage_sector-GrowsAll sector plan =
      let content = slice staged (sector - spec.start) sector_bytes in
      let old = slice plan.current sector sector_bytes in
      if-GrowsAll plan (eq_bytes old content) _ _ (ok-GrowsAll plan) (
        next_step-GrowsAll plan
          (if is_clearing old content
            then ok plan
            else append_operation plan (erase_operation spec staged sector))
          _
          (if-GrowsAll plan (is_clearing old content) _ _ (ok-GrowsAll plan)
            (append_operation-GrowsAll plan (erase_operation spec staged sector)))
          (λ middle. stage_blocks-GrowsAll 8 sector middle))

  stage_sectors-GrowsAll :
      (rounds sector : ℕ) (plan : Plan)
      → GrowsAll plan (stage_sectors spec staged rounds sector plan)
  unfolding stage_sectors
  stage_sectors-GrowsAll zero sector plan = ok-GrowsAll plan
  stage_sectors-GrowsAll (suc rounds) sector plan =
      next_step-GrowsAll plan (stage_sector spec staged sector plan) _
        (stage_sector-GrowsAll sector plan)
        (λ middle. stage_sectors-GrowsAll rounds (sector + sector_bytes) middle)

  pub append_stage_operations-GrowsAll :
      (plan : Plan) → GrowsAll plan (append_stage_operations spec staged plan)
  unfolding append_stage_operations
  append_stage_operations-GrowsAll plan =
      require-GrowsAll plan (length staged == envelope_length spec) _ (
        next_step-GrowsAll plan
          (stage_sectors spec staged (sector_count spec staged) spec.start plan) _
          (stage_sectors-GrowsAll (sector_count spec staged) spec.start plan)
          (λ middle.
            require-GrowsAll middle
              (eq_bytes (slice middle.current spec.start (envelope_length spec)) staged) _
              (ok-GrowsAll middle)))
