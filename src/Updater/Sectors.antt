-- ===== src/Updater/Sectors.antt =====
-- `append_stage_operations` brings the envelope of a core to its staged image, whatever the image
-- was before.
use kb.Base.{
  ℕ, zero, suc, ◌+◌, ◌-◌, ◌*◌, ◌%◌, ◌≤◌, ◌≡◌, refl, sym, subst, ◌∙◌, inl, inr, [], ◌∷◌, ◌++◌,
  append-nil, arith, ==_refl, Bool-cases, length, take, drop, length-take, slice, length-slice,
  slice-append, Bytes, IsBytes, eq_bytes, eq_bytes_sound, eq_bytes_refl, IsBytes-take, IsBytes-drop,
  IsBytes-replicate, ok,
}
use kb.Updater.Regions.{sector_bytes, RegionSpec, envelope_length}
use kb.Updater.Operations.{
  Operation, erase_action, erased, store_slice, is_clearing, effect, apply_operation,
}
use kb.Updater.Staging.{
  Plan, erase_operation, stage_blocks, prepare_sector, stage_sector, stage_sectors, sector_count,
  append_stage_operations,
}
use kb.Updater.Bitwise.{length-erased, is_clearing-erased}
use kb.Updater.Applied.{store_slice-append, three_parts, InEnvelopes}
use kb.Updater.Replay.{Staged, Staged-done, Staged-next_step, append_operation-Staged}
use kb.Updater.Placed.{Placed, slice-Placed, Placed-first, Placed-rest, Placed-whole, append_units}
use kb.Updater.Blocks.{envelope_guard, stage_blocks-Staged}

erase-Placed :
    (whole before old after : Bytes) (operation : Operation)
    → operation.action ≡ erase_action
    → Placed operation.offset sector_bytes whole before old after
    → operation.offset % sector_bytes ≡ 0
    → InEnvelopes operation.offset sector_bytes
    → apply_operation whole operation ≡ ok (before ++ (erased sector_bytes ++ after))
unfolding apply_operation effect
erase-Placed whole before old after operation act p aligned inside = rw (
  act,
  envelope_guard operation.offset sector_bytes inside (omega arith),
  effect,
  aligned,
  p.0,
  store_slice-append operation.offset sector_bytes before old after (erased sector_bytes) p.1 p.2,
)

-- Sectors of the image, their staged content and their place.
abbrev IsSectors : ℕ → ℕ → Bytes → Bytes → Type 0
IsSectors offset n old new =
    IsBytes old × IsBytes new × (offset % sector_bytes ≡ 0) × InEnvelopes offset n

IsBytes-erased : (n : ℕ) → IsBytes (erased n)
unfolding erased
IsBytes-erased n = IsBytes-replicate n 255 (omega arith)

module _ (spec : RegionSpec) (staged : Bytes) where
  stage_sector-Staged :
      (sector : ℕ) (plan : Plan) (before old after front new rest : Bytes)
      → Placed sector sector_bytes plan.current before old after
      → Placed (sector - spec.start) sector_bytes staged front new rest
      → spec.start ≤ sector
      → IsSectors sector sector_bytes old new
      → Staged plan (before ++ (new ++ after)) (stage_sector spec staged sector plan)
  unfolding stage_sector prepare_sector
  stage_sector-Staged sector plan before old after front new rest p q low u =
      rw
        (
          slice-Placed sector sector_bytes plan.current before old after p,
          slice-Placed (sector - spec.start) sector_bytes staged front new rest q,
        )
        (elim (Bool-cases (eq_bytes old new)) [
          | inl same ↦ rw (same, ← eq_bytes_sound old new same, ← p.0) (Staged-done plan)
          | inr other ↦ elim (Bool-cases (is_clearing old new)) [
            | inl clear ↦
                rw (other, clear)
                  (stage_blocks-Staged spec staged 8 sector plan before old after front new rest p q
                    low (q.2, u.0, clear, omega (arith, u.2), u.3))
            | inr sets ↦
                rw (other, sets)
                  (Staged-next_step plan (before ++ (erased sector_bytes ++ after))
                    (before ++ (new ++ after)) _ (stage_blocks spec staged 8 sector)
                    (append_operation-Staged plan (erase_operation spec staged sector)
                      (before ++ (erased sector_bytes ++ after))
                      (erase-Placed plan.current before old after
                        (erase_operation spec staged sector) refl p u.2 u.3))
                    (λ ops.
                      stage_blocks-Staged spec staged 8 sector
                        (record {
                          operations = ops;
                          current = before ++ (erased sector_bytes ++ after);
                        })
                        before (erased sector_bytes) after front new rest
                        (refl, p.1, length-erased sector_bytes) q low
                        (
                          q.2,
                          IsBytes-erased sector_bytes,
                          is_clearing-erased sector_bytes new u.1,
                          omega (arith, u.2),
                          u.3,
                        )))
          ]
        ])

  stage_sectors-Staged :
      (rounds sector : ℕ) (plan : Plan) (before old after front new rest : Bytes)
      → Placed sector (rounds * sector_bytes) plan.current before old after
      → Placed (sector - spec.start) (rounds * sector_bytes) staged front new rest
      → spec.start ≤ sector
      → IsSectors sector (rounds * sector_bytes) old new
      → Staged plan (before ++ (new ++ after)) (stage_sectors spec staged rounds sector plan)
  unfolding stage_sectors
  stage_sectors-Staged zero sector plan before [] after front [] rest p q low u =
      rw (← p.0) (Staged-done plan)
  stage_sectors-Staged zero sector plan before (x ∷ old) after front new rest p q low u =
      absurd (omega (arith, p.2))
  stage_sectors-Staged zero sector plan before [] after front (x ∷ new) rest p q low u =
      absurd (omega (arith, q.2))
  stage_sectors-Staged (suc rounds) sector plan before old after front new rest p q low u =
      let n = sector_bytes in
      let m = rounds * sector_bytes in
      let e : suc rounds * sector_bytes ≡ n + m = omega arith in
      let place : Placed sector (n + m) plan.current before old after = (p.0, p.1, p.2 ∙ e) in
      let source : Placed (sector - spec.start) (n + m) staged front new rest =
        (q.0, q.1, q.2 ∙ e) in
      let first = Placed-first (sector - spec.start) n m staged front new rest source in
      let others = Placed-whole (sector - spec.start) n m staged front new rest source in
      let step : sector + n - spec.start ≡ sector - spec.start + n = omega arith in
      rw (← append_units before new after n) (
        Staged-next_step plan (before ++ (take n new ++ (drop n old ++ after)))
          ((before ++ take n new) ++ (drop n new ++ after)) (stage_sector spec staged sector plan)
          (stage_sectors spec staged rounds (sector + n))
          (stage_sector-Staged sector plan before (take n old) (drop n old ++ after) front
            (take n new) (drop n new ++ rest)
            (Placed-first sector n m plan.current before old after place) first low
            (IsBytes-take n old u.0, IsBytes-take n new u.1, u.2, (u.3.0, omega (arith, u.3.1))))
          (λ ops.
            stage_sectors-Staged rounds (sector + n)
              (record {
                operations = ops;
                current = before ++ (take n new ++ (drop n old ++ after));
              })
              (before ++ take n new) (drop n old) after (front ++ take n new) (drop n new) rest
              (Placed-rest sector n m plan.current before old after (take n new) place first.2)
              (rw step others) (omega arith)
              (
                IsBytes-drop n old u.0,
                IsBytes-drop n new u.1,
                omega (arith, u.2),
                (omega (arith, u.3.0), omega (arith, u.3.1)),
              )))

-- A region that fills whole sectors of the two envelopes.
abbrev pub IsSectorRegion : RegionSpec → ℕ → Type 0
IsSectorRegion spec rounds =
    (spec.envelope_end ≡ spec.start + rounds * sector_bytes)
    × (spec.start % sector_bytes ≡ 0)
    × InEnvelopes spec.start (rounds * sector_bytes)

-- The guards around the loop.
append_stage_operations-ok :
    (spec : RegionSpec) (rounds : ℕ) (staged : Bytes) (plan result : Plan)
    → sector_count spec staged ≡ rounds
    → length staged ≡ envelope_length spec
    → stage_sectors spec staged rounds spec.start plan ≡ ok result
    → slice result.current spec.start (envelope_length spec) ≡ staged
    → append_stage_operations spec staged plan ≡ ok result
unfolding append_stage_operations
append_stage_operations-ok spec rounds staged plan result count size done reached =
    rw (count, done, reached, eq_bytes_refl staged, size, ==_refl (envelope_length spec))

-- Staging succeeds for every image of bytes that holds the envelope and every staged envelope of
-- bytes of its size: the envelope becomes the staged one, the rest of the image stays, and the
-- operations that are appended, applied one after the other, lead from the old image to the new.
pub append_stage_operations-Staged :
    (spec : RegionSpec) (rounds : ℕ) (staged : Bytes) (plan : Plan)
    → IsSectorRegion spec rounds
    → IsBytes staged
    → length staged ≡ envelope_length spec
    → IsBytes plan.current
    → spec.envelope_end ≤ length plan.current
    → Staged plan
        (store_slice plan.current spec.start spec.envelope_end staged)
        (append_stage_operations spec staged plan)
append_stage_operations-Staged spec rounds staged plan r b size bytes fits =
    let n = rounds * sector_bytes in
    let image = store_slice plan.current spec.start spec.envelope_end staged in
    let front : length (take spec.start plan.current) ≡ spec.start =
      omega (arith, length-take spec.start plan.current, r.0) in
    let unit : length (slice plan.current spec.start n) ≡ n =
      length-slice plan.current spec.start n (omega (arith, r.0)) in
    let whole : length staged ≡ n = omega (arith, size, r.0) in
    let rounds_lem : sector_count spec staged ≡ rounds = omega (arith, r.0) in
    let done : Staged plan image (stage_sectors spec staged rounds spec.start plan) =
      subst
        (λ end.
          Staged plan (store_slice plan.current spec.start end staged)
            (stage_sectors spec staged rounds spec.start plan))
        (sym r.0)
        (stage_sectors-Staged spec staged rounds spec.start plan (take spec.start plan.current)
          (slice plan.current spec.start n) (drop (spec.start + n) plan.current) [] staged []
          (three_parts spec.start n plan.current, front, unit)
          (sym (append-nil staged), omega arith, whole) (omega arith)
          (IsBytes-take n _ (IsBytes-drop spec.start plan.current bytes), b, r.1, r.2)) in
    let reached : slice image spec.start (envelope_length spec) ≡ staged =
      slice-append spec.start (envelope_length spec) (take spec.start plan.current) staged
        (drop spec.envelope_end plan.current) front size in
    (
      done.0,
      append_stage_operations-ok spec rounds staged plan
          (record { operations = plan.operations ++ done.0; current = image }) rounds_lem size
          done.1 reached,
      done.2,
    )
