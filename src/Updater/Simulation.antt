-- ===== src/Updater/Simulation.antt =====
-- `simulate` of kb7-updater-plan.py: every operation of a plan applied in turn, with what it leaves
-- at its boundary and at the prefixes of its effect. The text of a SHA-256 is a parameter; numbers
-- stand for their hexadecimal texts, and entries of one fixed text are left out.
use kb.Base.{
  ℕ, zero, suc, ◌+◌, ◌-◌, ◌*◌, ◌/◌, ◌%◌, ◌^◌, ◌≤◌, ◌<◌, min, bit_and, bit_or, bit_xor, ◌≡◌, refl,
  sym, ap, ap₂, subst, ◌∙◌, ◌≢◌, ◌↔◌, ◌⊎◌, inl, inr, Bool, true, false, ◌&&◌, ◌||◌, not, Option,
  none, some, List, [], ◌∷◌, ◌++◌, map, append_assoc, append-nil, arith, ltb, leb, ◌==◌, ◌!=◌,
  if◌then◌else◌, ltb→lt, lt→ltb, leb→le, le→leb, ==_iff, ==_refl, tests, Bool-cases, Option-cases,
  and-eq-true, length, get_elem?, set, take, drop, replicate, length-append, length-take,
  length-drop, length-replicate, length-set, take-append-drop, take-all, drop-all, take-append,
  drop-append, take-append_le, drop-append_le, drop-drop, drop-nil, take-nil, replicate-append,
  replicate_split, take-append-take, slice, splice, length-slice, slice-append,
  get_elem?-append_middle, set-append_middle, Bytes, IsBytes, le, le_value, ljust, any, eq_bytes,
  eq_bytes_sound, eq_bytes_refl, IsBytes-append, IsBytes-take, IsBytes-drop, IsBytes-replicate,
  IsBytes-le, length-le, le-le_value, le_value-lt, length-ljust, IsBytes-ljust, ljust-full,
  take-ljust, any-drop-ljust, bit_or-full, bit_and-full, bit_and_comm, bit_and_self, bit_and_absorb,
  bit_and_assoc, bit_and-le, bit_or_self, crc32, is_utf8, crc32-lt, bit_xor_longer, lt-or-le,
  get_elem?_past, get_elem?-drop, get_elem?-take, get_elem?-take_past, get_elem?-append_left,
  get_elem?-append_right, get_elem?-replicate, get_elem?-slice, get_elem?_equal, slice_equal,
  bit_xor_injective, digit_split, scale-bit_xor, bit_xor-eq-zero, crc32_word_change, rounds,
  rounds-bit_xor, rounds-eq-zero, rounds-lt, bit_xor-low, bit_xor-half, zero-bit_xor, by_digits,
  bit_xor_comm, bit_xor-zero, bit_xor_self, bit_xor_assoc, bit_xor_cancel, bit_xor_swap, bit_xor-lt,
  bit_xor_same_length, Result, ok, err, Action, pure, raise, lift, modify, guard-eq-ok, then-eq-ok,
}
use kb.Updater.Regions.{
  PlanFault, plan_error, sector_bytes, block_bytes, core0_start, core0_length, core0_envelope_end,
  core1_start, core1_length, core1_envelope_end, Core, core0, core1, RegionSpec, core0_spec,
  core1_spec,
}
use kb.Updater.Operations.{
  require, OperationAction, program_action, erase_action, other_action, Phase, poison, stage,
  commit, PayloadFile, Operation, operation_length, erased, store_slice, apply_operation,
  transition_reachable, prefix_outcome,
}
use kb.Updater.Sequence.{◌>>=◌, fwin_checksum, core_checksums, expected_image}
use kb.Updater.Commands.{cdb_program, cdb_erase}
pub mod Run
pub mod Boundaries

-- `STATE_DOMAIN`, the text "KB7 updater modeled state v1" and a zero byte.
abbrev pub state_domain : Bytes
state_domain =
    75 ∷ 66 ∷ 55 ∷ 32 ∷ 117 ∷ 112 ∷ 100 ∷ 97 ∷ 116 ∷ 101 ∷ 114 ∷ 32 ∷ 109 ∷ 111 ∷ 100 ∷ 101 ∷ 108
    ∷ 101 ∷ 100 ∷ 32 ∷ 115 ∷ 116 ∷ 97 ∷ 116 ∷ 101 ∷ 32 ∷ 118 ∷ 49 ∷ 0 ∷ []

abbrev pub mutable_state_sha256 : (Bytes → Bytes) → Bytes → Bytes
mutable_state_sha256 sha256 image = sha256 (
    state_domain
    ++ (slice image core0_start (core0_envelope_end - core0_start)
        ++ slice image core1_start (core1_envelope_end - core1_start)))

-- The digest of the bytes outside the two cores.
abbrev pub immutable_sha256 : (Bytes → Bytes) → Bytes → Bytes
immutable_sha256 sha256 image = sha256 (take core0_start image ++ drop core1_envelope_end image)

-- `all(current[start:start + length] == regions[name] for spec in REGIONS)`
unfoldable pub holds_regions : Bytes → (Core → Bytes) → Bool
holds_regions image regions =
    eq_bytes (slice image core0_start core0_length) (regions core0)
    && eq_bytes (slice image core1_start core1_length) (regions core1)

-- `valid`, and `all(valid)`
abbrev pub is_core0_valid : ℕ × ℕ → Bool
is_core0_valid (sum0, sum1) = sum0 == core0_spec.manifest_checksum

abbrev pub is_core1_valid : ℕ × ℕ → Bool
is_core1_valid (sum0, sum1) = sum1 == core1_spec.manifest_checksum

abbrev pub is_bootable : ℕ × ℕ → Bool
is_bootable sums = is_core0_valid sums && is_core1_valid sums

-- The barrier that each phase must keep after its effect.
unfoldable pub keeps_barrier : Phase → ℕ × ℕ → Bool → Bool
keeps_barrier (stage core0) sums exact = not (is_core1_valid sums)
keeps_barrier (stage core1) sums exact = not (is_core0_valid sums)
keeps_barrier (commit core1) sums exact = not (is_core0_valid sums)
keeps_barrier (commit core0) sums exact = exact && is_bootable sums
keeps_barrier (poison core) sums exact = true

-- `int.bit_count`, of a number up to the fuel.
abbrev pub bit_count : ℕ → ℕ → ℕ
bit_count zero n = 0
bit_count (suc fuel) zero = 0
bit_count (suc fuel) (suc n) = suc n % 2 + bit_count fuel (suc n / 2)

-- `changed_bits`
abbrev pub changed_bits : Bytes → Bytes → ℕ
changed_bits (x ∷ xs) (y ∷ ys) = bit_count (bit_xor x y) (bit_xor x y) + changed_bits xs ys
changed_bits _ _ = 0

-- One round of the loop over the cuts of the last gate.
abbrev pub is_cut_invalid : (Core → Bytes) → Operation → Bytes → Bytes → ℕ → Result PlanFault Bool
is_cut_invalid staged operation pre_unit post_unit cut =
    prefix_outcome pre_unit post_unit operation.action cut >>= λ partial.
    let relative = operation.offset - core0_start in
    ok (
      not (
        fwin_checksum (store_slice (staged core0) relative (relative + block_bytes) partial)
        == core0_spec.manifest_checksum))

abbrev pub are_cuts_invalid :
    (Core → Bytes) → Operation → Bytes → Bytes → Result PlanFault (Unit {0})
are_cuts_invalid staged operation pre_unit post_unit =
    is_cut_invalid staged operation pre_unit post_unit 1 >>= λ first. require first (
      is_cut_invalid staged operation pre_unit post_unit 2 >>= λ second.
      require second
        (is_cut_invalid staged operation pre_unit post_unit 3 >>= λ third. require third (ok tt)))

-- What the phases check of the prefixes.
unfoldable pub check_prefixes :
    (Core → Bytes) → Operation → Bytes → Bytes → ℕ × ℕ → Phase → Result PlanFault (Unit {0})
check_prefixes staged operation pre_unit post_unit pre_sums (poison core) =
    require (changed_bits pre_unit post_unit == 1) (ok tt)
check_prefixes staged operation pre_unit post_unit pre_sums (commit core0) =
    are_cuts_invalid staged operation pre_unit post_unit
check_prefixes staged operation pre_unit post_unit pre_sums (stage core0) =
    require (not (is_core1_valid pre_sums)) (ok tt)
check_prefixes staged operation pre_unit post_unit pre_sums (stage core1) =
    require (not (is_core0_valid pre_sums)) (ok tt)
check_prefixes staged operation pre_unit post_unit pre_sums (commit core1) =
    require (not (is_core0_valid pre_sums)) (ok tt)

-- The counters of the report.
pub record Counters : Type 0 where
  pub body_partial_barriers : ℕ
  pub byte_prefix_states : ℕ
  pub unique_prefix_states : ℕ
  pub poison_prefix_states : ℕ
  pub final_gate_prefix_states : ℕ
  pub journal_states : ℕ

abbrev pub no_counts : Counters
no_counts = record {
  body_partial_barriers = 0;
  byte_prefix_states = 0;
  unique_prefix_states = 0;
  poison_prefix_states = 0;
  final_gate_prefix_states = 0;
  journal_states = 0;
}

abbrev pub is_stage_phase : Phase → ℕ
is_stage_phase (stage core) = 1
is_stage_phase (commit core) = 0
is_stage_phase (poison core) = 0

abbrev pub is_poison_phase : Phase → ℕ
is_poison_phase (poison core) = 1
is_poison_phase (stage core) = 0
is_poison_phase (commit core) = 0

abbrev pub is_last_phase : Phase → ℕ
is_last_phase (commit core0) = 1
is_last_phase (commit core1) = 0
is_last_phase (stage core) = 0
is_last_phase (poison core) = 0

-- The increments of one operation.
abbrev pub counted : Counters → Operation → Counters
counted c operation =
    let size = operation_length operation.action in
    record {
      body_partial_barriers = c.body_partial_barriers + is_stage_phase operation.phase;
      byte_prefix_states = c.byte_prefix_states + (size - 1);
      unique_prefix_states = c.unique_prefix_states + 2 + 3 * is_last_phase operation.phase;
      poison_prefix_states = c.poison_prefix_states + is_poison_phase operation.phase * (size - 1);
      final_gate_prefix_states = c.final_gate_prefix_states + 3 * is_last_phase operation.phase;
      journal_states = c.journal_states + 4;
    }
