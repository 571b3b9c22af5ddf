-- ===== src/Updater/Simulation/Run.antt =====
-- The loop of `simulate` and its report.
use kb.Base.{
  ℕ, suc, ◌+◌, ◌-◌, ◌*◌, ◌%◌, ◌&&◌, ◌||◌, not, Option, none, some, List, [], ◌∷◌, ◌++◌,
  if◌then◌else◌, length, slice, Bytes, eq_bytes, Result, ok,
}
use kb.Updater.Regions.{
  PlanFault, sector_bytes, Core, core0, core1, core0_start, core0_length, core1_start, core1_length,
}
use kb.Updater.Operations.{
  require, OperationAction, program_action, erase_action, other_action, Phase, PayloadFile,
  Operation, operation_length, apply_operation, transition_reachable,
}
use kb.Updater.Sequence.{◌>>=◌, core_checksums, expected_image}
use kb.Updater.Commands.{cdb_program, cdb_erase}
use kb.Updater.Simulation.{
  mutable_state_sha256, immutable_sha256, holds_regions, is_bootable, keeps_barrier, check_prefixes,
  Counters, no_counts, counted,
}

-- What a loss of power boots: the stock image, the boot loader's mode, or the target.
pub data BootClass : Type 0 where
  stock isp target : BootClass

-- An entry of `traces`.
pub record Trace : Type 0 where
  pub trace_index : ℕ
  pub trace_phase : Phase
  pub trace_action : OperationAction
  pub trace_offset : ℕ
  pub trace_length : ℕ
  pub sector_offset : ℕ
  pub mutation_cdb : Bytes
  pub payload_sha256 : Option Bytes
  pub trace_source : Option PayloadFile
  pub trace_payload_offset : Option ℕ
  pub pre_sector_sha256 : Bytes
  pub post_sector_sha256 : Bytes
  pub pre_unit_sha256 : Bytes
  pub post_unit_sha256 : Bytes
  pub pre_state_sha256 : Bytes
  pub post_state_sha256 : Bytes
  pub pre_checksums : ℕ × ℕ
  pub post_checksums : ℕ × ℕ
  pub before_effect : BootClass
  pub after_effect : BootClass

-- `mutation_cdb`
abbrev pub command_of : Operation → Result PlanFault Bytes
command_of operation = elim operation.action [
  | program_action ↦ cdb_program operation.offset
  | erase_action ↦ cdb_erase operation.offset
  | other_action ↦ cdb_erase operation.offset
]

abbrev pub hash_payload : (Bytes → Bytes) → Option Bytes → Option Bytes
hash_payload sha256 none = none
hash_payload sha256 (some content) = some (sha256 content)

-- What the loop reads: the digest, the baseline's cores and digest, the targets, the staged images.
pub record Setting : Type 0 where
  pub sha256 : Bytes → Bytes
  pub source_regions : Core → Bytes
  pub immutable_before : Bytes
  pub targets : Core → Bytes
  pub staged_regions : Core → Bytes

abbrev pub trace_of : Setting → ℕ → Operation → Bytes → Bytes → Bytes → Trace
trace_of s index operation current next cdb =
    let unit = operation.offset in
    let size = operation_length operation.action in
    let sector = operation.offset - operation.offset % sector_bytes in
    record {
      trace_index = index;
      trace_phase = operation.phase;
      trace_action = operation.action;
      trace_offset = unit;
      trace_length = size;
      sector_offset = sector;
      mutation_cdb = cdb;
      payload_sha256 = hash_payload s.sha256 operation.payload;
      trace_source = operation.payload_source;
      trace_payload_offset = operation.payload_offset;
      pre_sector_sha256 = s.sha256 (slice current sector sector_bytes);
      post_sector_sha256 = s.sha256 (slice next sector sector_bytes);
      pre_unit_sha256 = s.sha256 (slice current unit size);
      post_unit_sha256 = s.sha256 (slice next unit size);
      pre_state_sha256 = mutable_state_sha256 s.sha256 current;
      post_state_sha256 = mutable_state_sha256 s.sha256 next;
      pre_checksums = core_checksums current;
      post_checksums = core_checksums next;
      before_effect = if holds_regions current s.source_regions then stock else isp;
      after_effect =
          if holds_regions next s.targets && is_bootable (core_checksums next) then target else isp;
    }

-- The checks of one round behind `apply_operation`. The second call of `transition_reachable` in
-- the source has the arguments of the first.
unfoldable pub check_step : Setting → Operation → Bytes → Bytes → Result PlanFault (Unit {0})
check_step s operation current next =
    let unit = operation.offset in
    let size = operation_length operation.action in
    let pre_unit = slice current unit size in
    let post_unit = slice next unit size in
    let sums = core_checksums next in
    let exact = holds_regions next s.targets in
    require (not (eq_bytes pre_unit post_unit)) (
      require (transition_reachable pre_unit post_unit post_unit operation.action) (
        require (not (is_bootable sums) || exact) (
          require (eq_bytes (immutable_sha256 s.sha256 next) s.immutable_before) (
            require (keeps_barrier operation.phase sums exact) (
              check_prefixes s.staged_regions operation pre_unit post_unit (core_checksums current)
                operation.phase)))))

-- The state of the loop.
pub record Simulated : Type 0 where
  pub image : Bytes
  pub traces : List Trace
  pub counters : Counters

unfoldable pub simulate_step : Setting → ℕ → Operation → Simulated → Result PlanFault Simulated
simulate_step s index operation state = apply_operation state.image operation >>= λ next.
    check_step s operation state.image next >>= λ _. command_of operation >>= λ cdb. ok (record {
      image = next;
      traces = state.traces ++ (trace_of s index operation state.image next cdb ∷ []);
      counters = counted state.counters operation;
    })

-- `for index, operation in enumerate(operations)`
abbrev pub simulate_loop : Setting → ℕ → List Operation → Simulated → Result PlanFault Simulated
simulate_loop s index [] state = ok state
simulate_loop s index (operation ∷ rest) state =
    simulate_step s index operation state >>= simulate_loop s (suc index) rest

-- The entries of the report that are not fixed texts.
pub record Report : Type 0 where
  pub operation_count : ℕ
  pub fail_stop_sites : ℕ
  pub boundary_prefixes : ℕ
  pub counts : Counters
  pub final_full_sha256 : Bytes

abbrev pub setting_of : (Bytes → Bytes) → Bytes → (Core → Bytes) → (Core → Bytes) → Setting
setting_of sha256 baseline targets staged = record {
  sha256 = sha256;
  source_regions = λ core. elim core [
    | core0 ↦ slice baseline core0_start core0_length
    | core1 ↦ slice baseline core1_start core1_length
  ];
  immutable_before = immutable_sha256 sha256 baseline;
  targets = targets;
  staged_regions = staged;
}

unfoldable pub simulate :
    (Bytes → Bytes)
    → Bytes
    → (Core → Bytes)
    → (Core → Bytes)
    → List Operation
    → Result PlanFault (List Trace × Report)
simulate sha256 baseline targets staged operations =
    let expected = expected_image baseline targets in
    simulate_loop (setting_of sha256 baseline targets staged) 0 operations
      (record { image = baseline; traces = []; counters = no_counts })
    >>= λ state. require (eq_bytes state.image expected) (
        ok (
          state.traces,
          record {
            operation_count = length operations;
            fail_stop_sites = length operations * 15;
            boundary_prefixes = length operations + 1;
            counts = state.counters;
            final_full_sha256 = sha256 expected;
          },
        ))
