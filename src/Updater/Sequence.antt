-- ===== src/Updater/Sequence.antt =====
-- `choose_poison`, the checksums of the cores and `build_operations` of kb7-updater-plan.py.
use kb.Base.{
  ℕ, zero, suc, ◌+◌, ◌-◌, ◌*◌, ◌/◌, ◌%◌, ◌^◌, Bool, not, Option, none, some, List, [], ◌∷◌, ◌++◌,
  ◌==◌, if◌then◌else◌, length, set, take, drop, slice, Bytes, eq_bytes, crc32, Result, ok, err,
}
use kb.Updater.Regions.{
  PlanFault, plan_error, block_bytes, core0_start, core0_length, core1_start, core1_length, Core,
  RegionSpec, envelope_length, core0_spec, core1_spec,
}
use kb.Updater.Operations.{
  require, program_action, poison, commit, poison_blocks, sector_image, Operation, erased,
  store_slice,
}
use kb.Updater.Staging.{Plan, append_operation, append_stage_operations}

infixl 5 ◌>>=◌
abbrev pub ◌>>=◌ :
    {A B : Type 0} → Result PlanFault A → (A → Result PlanFault B) → Result PlanFault B
r >>= f = elim r [ err e ↦ err e | ok a ↦ f a ]

-- `content.find(b"\xff")`, from index `i` on.
abbrev pub find_erased : ℕ → Bytes → Option ℕ
find_erased i [] = none
find_erased i (x ∷ xs) = if x == 255 then some i else find_erased (i + 1) xs

-- The three results of `choose_poison`.
pub record Poison : Type 0 where
  pub block_offset : ℕ
  pub byte_offset : ℕ
  pub poison_payload : Bytes

-- The poison of a byte: its block, cleared in the lowest bit of that byte.
abbrev pub poison_at : ℕ → Poison
poison_at byte = record {
  block_offset = byte / block_bytes * block_bytes;
  byte_offset = byte;
  poison_payload = set (erased block_bytes) (byte - byte / block_bytes * block_bytes) 0xfe;
}

unfoldable pub choose_poison : Bytes → RegionSpec → Result PlanFault Poison
choose_poison image spec =
    let search_start = spec.start + 0x1000 in
    elim (find_erased 0
      (slice image search_start (spec.start + spec.fixup_offset - search_start))) [
        | none ↦ err plan_error
        | some relative ↦ ok (poison_at (search_start + relative))
      ]

-- The sum of `fwin_checksum`, with the rounds left.
unfoldable pub chunk_sum : ℕ → Bytes → ℕ
chunk_sum zero content = 0
chunk_sum (suc rounds) content =
    crc32 (take 0x10000 content) + chunk_sum rounds (drop 0x10000 content)

unfoldable pub fwin_checksum : Bytes → ℕ
fwin_checksum content = chunk_sum ((length content + 0xffff) / 0x10000) content % 2 ^ 32

unfoldable pub core_checksums : Bytes → ℕ × ℕ
core_checksums image = (
  fwin_checksum (slice image core0_start core0_length),
  fwin_checksum (slice image core1_start core1_length),
)

-- `core_checksums(current)[spec.role] != spec.manifest_checksum`
unfoldable pub is_invalid : Bytes → RegionSpec → Bool
is_invalid image spec =
    let checksums = core_checksums image in
    not ((if spec.role == 0 then checksums.0 else checksums.1) == spec.manifest_checksum)

-- The plan in the making and its `poison_payloads`, with the `poisons` entries.
pub record Poisoned : Type 0 where
  pub plan : Plan
  pub payloads : List Bytes
  pub poisons : List Poison

abbrev pub poison_operation : RegionSpec → Poison → ℕ → Operation
poison_operation spec p payload_offset = record {
  phase = poison spec.name;
  action = program_action;
  offset = p.block_offset;
  payload = some p.poison_payload;
  payload_source = some poison_blocks;
  payload_offset = some payload_offset;
}

-- The loop over the regions that poisons them.
unfoldable pub poison_core : Bytes → RegionSpec → Poisoned → Result PlanFault Poisoned
poison_core baseline spec state = do
  p ← choose_poison baseline spec
  next ← append_operation state.plan (poison_operation spec p (length state.payloads * block_bytes))
  require (is_invalid next.current spec) (
      ok (record {
        plan = next;
        payloads = state.payloads ++ (p.poison_payload ∷ []);
        poisons = state.poisons ++ (p ∷ []);
      }))

-- The loop that stages them; `staged` is the dictionary by the name of the region.
unfoldable pub stage_core : (Core → Bytes) → RegionSpec → Plan → Result PlanFault Plan
stage_core staged spec plan = do
  next ←
      append_stage_operations spec
        (staged spec.name ++ erased (envelope_length spec - spec.region_length)) plan
  require (is_invalid next.current spec) (ok next)

abbrev pub commit_operation : (Core → Bytes) → RegionSpec → Operation
commit_operation targets spec = record {
  phase = commit spec.name;
  action = program_action;
  offset = spec.start + spec.gate_offset;
  payload = some (slice (targets spec.name) spec.gate_offset block_bytes);
  payload_source = some (sector_image spec.name);
  payload_offset = some spec.gate_offset;
}

-- The loop that commits them.
unfoldable pub commit_core : (Core → Bytes) → RegionSpec → Plan → Result PlanFault Plan
commit_core targets spec plan = do
  next ← append_operation plan (commit_operation targets spec)
  require (eq_bytes (slice next.current spec.start spec.region_length) (targets spec.name))
      (ok next)

-- `expected`, for one region after the other.
abbrev pub with_target : (Core → Bytes) → RegionSpec → Bytes → Bytes
with_target targets spec image =
    let inner =
      store_slice image spec.start (spec.start + spec.region_length) (targets spec.name) in
    store_slice inner (spec.start + spec.region_length) spec.envelope_end
      (erased (spec.envelope_end - spec.start - spec.region_length))

unfoldable pub expected_image : Bytes → (Core → Bytes) → Bytes
expected_image baseline targets =
    with_target targets core1_spec (with_target targets core0_spec baseline)

-- What `build_operations` returns, with `concatenated` for `poison_payload`.
pub record Built : Type 0 where
  pub operations : List Operation
  pub poisons : List Poison
  pub concatenated : Bytes
  pub target_image : Bytes

abbrev pub concat : List Bytes → Bytes
concat [] = []
concat (x ∷ xs) = x ++ concat xs

unfoldable pub build_operations : Bytes → (Core → Bytes) → (Core → Bytes) → Result PlanFault Built
build_operations baseline targets staged = do
  first ← poison_core baseline core0_spec (record {
    plan = record { operations = []; current = baseline };
    payloads = [];
    poisons = [];
  })
  second ← poison_core baseline core1_spec first
  body1 ← stage_core staged core1_spec second.plan
  body0 ← stage_core staged core0_spec body1
  gate1 ← commit_core targets core1_spec body0
  gate0 ← commit_core targets core0_spec gate1
  require (eq_bytes gate0.current (expected_image baseline targets)) (
      ok (record {
        operations = gate0.operations;
        poisons = second.poisons;
        concatenated = concat second.payloads;
        target_image = expected_image baseline targets;
      }))
