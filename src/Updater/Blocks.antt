-- ===== src/Updater/Blocks.antt =====
-- The loop of `append_stage_operations` over the blocks of a sector: it brings the sector to its
-- staged content when the content only clears bits.
use kb.Base.{
  ℕ, zero, suc, ◌+◌, ◌-◌, ◌*◌, ◌%◌, ◌≤◌, ◌<◌, ◌≡◌, refl, sym, ◌∙◌, inl, inr, true, false, ◌&&◌,
  some, [], ◌∷◌, ◌++◌, arith, ltb, leb, lt→ltb, le→leb, Bool-cases, length, take, drop, length-take,
  length-drop, take-append-drop, Bytes, IsBytes, eq_bytes, eq_bytes_sound, eq_bytes_refl,
  IsBytes-take, IsBytes-drop, ok,
}
use kb.Updater.Regions.{block_bytes, core0_start, core1_envelope_end, RegionSpec}
use kb.Updater.Operations.{Operation, program_action, erased, is_clearing, effect, apply_operation}
use kb.Updater.Staging.{Plan, program_operation, stage_block, stage_blocks}
use kb.Updater.Bitwise.{is_clearing-and_bytes, is_clearing-append, clearing_to_erased}
use kb.Updater.Applied.{store_slice-append, InEnvelopes}
use kb.Updater.Replay.{Staged, Staged-done, Staged-next_step, append_operation-Staged}
use kb.Updater.Placed.{Placed, slice-Placed, Placed-first, Placed-rest, Placed-whole, append_units}

-- The first guard of `apply_operation` in the envelopes.
pub envelope_guard :
    (offset n : ℕ)
    → InEnvelopes offset n
    → 0 < n
    → (leb core0_start offset && ltb offset (offset + n) && leb (offset + n) core1_envelope_end)
      ≡ true
envelope_guard offset n p positive = rw (
  le→leb core0_start offset p.0,
  lt→ltb offset (offset + n) (omega arith),
  le→leb (offset + n) core1_envelope_end p.1,
)

program-Placed :
    (whole before old after content : Bytes) (operation : Operation)
    → operation.action ≡ program_action
    → operation.payload ≡ some content
    → Placed operation.offset block_bytes whole before old after
    → length content ≡ block_bytes
    → operation.offset % block_bytes ≡ 0
    → InEnvelopes operation.offset block_bytes
    → is_clearing old content ≡ true
    → apply_operation whole operation ≡ ok (before ++ (content ++ after))
unfolding apply_operation effect
program-Placed whole before old after content operation act pay p size aligned inside clear = rw (
  act,
  pay,
  envelope_guard operation.offset block_bytes inside (omega arith),
  effect,
  size,
  aligned,
  slice-Placed operation.offset block_bytes whole before old after p,
  is_clearing-and_bytes old content clear (p.2 ∙ sym size),
  p.0,
  store_slice-append operation.offset block_bytes before old after content p.1 p.2,
)

-- What a block of the envelope and its staged content are.
abbrev pub IsUnit : ℕ → ℕ → Bytes → Bytes → Type 0
IsUnit offset n old new =
    (length new ≡ n)
    × IsBytes old
    × (is_clearing old new ≡ true)
    × (offset % block_bytes ≡ 0)
    × InEnvelopes offset n

-- A unit as a first unit and the others.
pub IsUnit-split :
    (offset n m : ℕ) (old new : Bytes)
    → n % block_bytes ≡ 0
    → length old ≡ n + m
    → IsUnit offset (n + m) old new
    → IsUnit offset n (take n old) (take n new) × IsUnit (offset + n) m (drop n old) (drop n new)
IsUnit-split offset n m old new aligned size u =
    let clears =
      is_clearing-append (take n old) (drop n old) (take n new) (drop n new)
        (omega (arith, length-take n old, length-take n new, u.0))
        (rw (take-append-drop n old, take-append-drop n new) u.2) in
    (
      (
        omega (arith, length-take n new, u.0),
        IsBytes-take n old u.1,
        clears.0,
        u.3,
        (u.4.0, omega (arith, u.4.1)),
      ),
      (
        omega (arith, length-drop n new, u.0),
        IsBytes-drop n old u.1,
        clears.1,
        omega (arith, u.3),
        (omega (arith, u.4.0), omega (arith, u.4.1)),
      ),
    )

-- No all-erased content is left to program.
not_erased :
    (n : ℕ) (old new : Bytes)
    → IsBytes old
    → length old ≡ n
    → is_clearing old new ≡ true
    → eq_bytes old new ≡ false
    → eq_bytes new (erased n) ≡ false
not_erased n old new b size clear other = elim (Bool-cases (eq_bytes new (erased n))) [
  | inr h ↦ h
  | inl h ↦
      let blank : new ≡ erased (length old) = rw size (eq_bytes_sound new (erased n) h) in
      let same : old ≡ new = clearing_to_erased old b (rw (← blank) clear) ∙ sym blank in
      let equal : eq_bytes old new ≡ true = rw (← same) (eq_bytes_refl old) in cc
]

module _ (spec : RegionSpec) (staged : Bytes) where
  pub stage_block-Staged :
      (block : ℕ) (plan : Plan) (before old after front new rest : Bytes)
      → Placed block block_bytes plan.current before old after
      → Placed (block - spec.start) block_bytes staged front new rest
      → IsUnit block block_bytes old new
      → Staged plan (before ++ (new ++ after)) (stage_block spec staged block plan)
  unfolding stage_block
  stage_block-Staged block plan before old after front new rest p q u =
      rw
        (
          slice-Placed block block_bytes plan.current before old after p,
          slice-Placed (block - spec.start) block_bytes staged front new rest q,
        )
        (elim (Bool-cases (eq_bytes old new)) [
          | inl same ↦ rw (same, ← eq_bytes_sound old new same, ← p.0) (Staged-done plan)
          | inr other ↦
              rw (other, not_erased block_bytes old new u.1 p.2 u.2 other, u.2)
                (append_operation-Staged plan (program_operation spec staged block new)
                  (before ++ (new ++ after))
                  (program-Placed plan.current before old after new
                    (program_operation spec staged block new) refl refl p u.0 u.3 u.4 u.2))
        ])

  -- The rounds of the loop, each on the block behind the last.
  pub stage_blocks-Staged :
      (rounds block : ℕ) (plan : Plan) (before old after front new rest : Bytes)
      → Placed block (rounds * block_bytes) plan.current before old after
      → Placed (block - spec.start) (rounds * block_bytes) staged front new rest
      → spec.start ≤ block
      → IsUnit block (rounds * block_bytes) old new
      → Staged plan (before ++ (new ++ after)) (stage_blocks spec staged rounds block plan)
  unfolding stage_blocks
  stage_blocks-Staged zero block plan before [] after front [] rest p q low u =
      rw (← p.0) (Staged-done plan)
  stage_blocks-Staged zero block plan before (x ∷ old) after front new rest p q low u =
      absurd (omega (arith, p.2))
  stage_blocks-Staged zero block plan before [] after front (x ∷ new) rest p q low u =
      absurd (omega (arith, q.2))
  stage_blocks-Staged (suc rounds) block plan before old after front new rest p q low u =
      let n = block_bytes in
      let m = rounds * block_bytes in
      let e : suc rounds * block_bytes ≡ n + m = omega arith in
      let place : Placed block (n + m) plan.current before old after = (p.0, p.1, p.2 ∙ e) in
      let source : Placed (block - spec.start) (n + m) staged front new rest =
        (q.0, q.1, q.2 ∙ e) in
      let unit : IsUnit block (n + m) old new =
        (u.0 ∙ e, u.1, u.2, u.3, (u.4.0, omega (arith, u.4.1))) in
      let units = IsUnit-split block n m old new (omega arith) place.2 unit in
      let first = Placed-first (block - spec.start) n m staged front new rest source in
      let others = Placed-whole (block - spec.start) n m staged front new rest source in
      let step : block + n - spec.start ≡ block - spec.start + n = omega arith in
      rw (← append_units before new after n) (
        Staged-next_step plan (before ++ (take n new ++ (drop n old ++ after)))
          ((before ++ take n new) ++ (drop n new ++ after)) (stage_block spec staged block plan)
          (stage_blocks spec staged rounds (block + n))
          (stage_block-Staged block plan before (take n old) (drop n old ++ after) front
            (take n new) (drop n new ++ rest)
            (Placed-first block n m plan.current before old after place) first units.0)
          (λ ops.
            stage_blocks-Staged rounds (block + n)
              (record {
                operations = ops;
                current = before ++ (take n new ++ (drop n old ++ after));
              })
              (before ++ take n new) (drop n old) after (front ++ take n new) (drop n new) rest
              (Placed-rest block n m plan.current before old after (take n new) place first.2)
              (rw step others) (omega arith) units.1))
