-- ===== src/Updater/Build.antt =====
-- The operations that `build_operations` returns are the ones that make its target image.
use kb.Base.{
  ◌-◌, ◌*◌, ◌≡◌, refl, ap, ◌∙◌, [], ◌∷◌, ◌++◌, length, slice, Bytes, eq_bytes, eq_bytes_sound,
  Result, ok, err,
}
use kb.Updater.Regions.{
  PlanFault, block_bytes, Core, RegionSpec, envelope_length, core0_spec, core1_spec,
}
use kb.Updater.Operations.{require, Operation, erased}
use kb.Updater.Staging.{Plan, append_operation, append_stage_operations}
use kb.Updater.Applied.{require-eq-ok_value}
use kb.Updater.Replay.{replay}
use kb.Updater.Sequence.{
  Poison, choose_poison, Poisoned, poison_core, poison_operation, stage_core, commit_core,
  commit_operation, expected_image, Built, concat, build_operations, is_invalid,
}
use kb.Updater.Grows.{
  Grows, Grows-trans, GrowsAll, ok-GrowsAll, next_step-GrowsAll, require-GrowsAll,
  append_operation-GrowsAll, append_stage_operations-GrowsAll,
}

-- The same for a step of the build.
poison_core-Grows :
    (baseline : Bytes) (spec : RegionSpec) (state next : Poisoned)
    → poison_core baseline spec state ≡ ok next
    → Grows state.plan next.plan
unfolding poison_core
poison_core-Grows baseline spec state next h = chosen (choose_poison baseline spec) h
  where
    stored : (p : Poison) (middle : Plan) → Poisoned
    stored p middle = record {
      plan = middle;
      payloads = state.payloads ++ (p.poison_payload ∷ []);
      poisons = state.poisons ++ (p ∷ []);
    }

    appended :
        (p : Poison) (operation : Operation) (r : Result PlanFault Plan)
        → append_operation state.plan operation ≡ r
        → (elim r [
          | err e ↦ err e
          | ok middle ↦ require (is_invalid middle.current spec) (ok (stored p middle))
        ])
          ≡ ok next
        → Grows state.plan next.plan
    appended p operation (err e) made g = cc
    appended p operation (ok middle) made g =
        let kept = require-eq-ok_value (is_invalid middle.current spec) (stored p middle) next g in
        rw (← kept.1) (append_operation-GrowsAll state.plan operation middle made)

    chosen :
        (r : Result PlanFault Poison)
        → (elim r [
          | err e ↦ err e
          | ok p ↦
              (elim (append_operation state.plan
                (poison_operation spec p (length state.payloads * block_bytes))) [
                  | err e ↦ err e
                  | ok middle ↦ require (is_invalid middle.current spec) (ok (stored p middle))
                ])
        ])
          ≡ ok next
        → Grows state.plan next.plan
    chosen (err e) g = cc
    chosen (ok p) g =
        appended p (poison_operation spec p (length state.payloads * block_bytes))
          (append_operation state.plan
            (poison_operation spec p (length state.payloads * block_bytes)))
          refl g

stage_core-GrowsAll :
    (staged : Core → Bytes) (spec : RegionSpec) (plan : Plan)
    → GrowsAll plan (stage_core staged spec plan)
unfolding stage_core
stage_core-GrowsAll staged spec plan =
    next_step-GrowsAll plan
      (append_stage_operations spec
        (staged spec.name ++ erased (envelope_length spec - spec.region_length)) plan)
      (λ middle. require (is_invalid middle.current spec) (ok middle))
      (append_stage_operations-GrowsAll spec
        (staged spec.name ++ erased (envelope_length spec - spec.region_length)) plan)
      (λ middle. require-GrowsAll middle (is_invalid middle.current spec) _ (ok-GrowsAll middle))

commit_core-GrowsAll :
    (targets : Core → Bytes) (spec : RegionSpec) (plan : Plan)
    → GrowsAll plan (commit_core targets spec plan)
unfolding commit_core
commit_core-GrowsAll targets spec plan =
    next_step-GrowsAll plan (append_operation plan (commit_operation targets spec))
      (λ middle.
        require (eq_bytes (slice middle.current spec.start spec.region_length) (targets spec.name))
          (ok middle))
      (append_operation-GrowsAll plan (commit_operation targets spec))
      (λ middle.
        require-GrowsAll middle
          (eq_bytes (slice middle.current spec.start spec.region_length) (targets spec.name)) _
          (ok-GrowsAll middle))

-- What a chain of results says of its first.
pub bind-eq-ok :
    {A B : Type 0} (r : Result PlanFault A) (f : A → Result PlanFault B) (b : B)
    → (elim r [ err e ↦ err e | ok a ↦ f a ]) ≡ ok b
    → (a : A) × (r ≡ ok a) × (f a ≡ ok b)
bind-eq-ok (err e) f b h = cc
bind-eq-ok (ok a) f b h = (a, refl, h)

-- The last guard of the build.
finished :
    (baseline : Bytes) (targets : Core → Bytes) (second : Poisoned) (gate0 : Plan) (built : Built)
    → Grows (record { operations = []; current = baseline }) gate0
    → require (eq_bytes gate0.current (expected_image baseline targets)) (
        ok (record {
          operations = gate0.operations;
          poisons = second.poisons;
          concatenated = concat second.payloads;
          target_image = expected_image baseline targets;
        }))
      ≡ ok built
    → (replay baseline built.operations ≡ ok built.target_image)
      × (built.target_image ≡ expected_image baseline targets)
finished baseline targets second gate0 built grown h =
    let expected = expected_image baseline targets in
    let kept =
      require-eq-ok_value (eq_bytes gate0.current expected)
        (record {
          operations = gate0.operations;
          poisons = second.poisons;
          concatenated = concat second.payloads;
          target_image = expected;
        })
        built h in
    rw (← kept.1) (
      rw grown.1 (grown.2 ∙ ap (λ image. ok image) (eq_bytes_sound gate0.current expected kept.0)),
      refl,
    )

-- The operations that are returned, applied one after the other to the baseline, all succeed and
-- make the target image, which is the baseline with the two target regions and erased tails.
pub build_operations-replay :
    (baseline : Bytes) (targets staged : Core → Bytes) (built : Built)
    → build_operations baseline targets staged ≡ ok built
    → (replay baseline built.operations ≡ ok built.target_image)
      × (built.target_image ≡ expected_image baseline targets)
unfolding build_operations
build_operations-replay baseline targets staged built h =
    let start : Poisoned = record {
      plan = record { operations = []; current = baseline };
      payloads = [];
      poisons = [];
    } in
    let (first, made1, h1) = bind-eq-ok (poison_core baseline core0_spec start) _ built h in
    let (second, made2, h2) = bind-eq-ok (poison_core baseline core1_spec first) _ built h1 in
    let (body1, made3, h3) = bind-eq-ok (stage_core staged core1_spec second.plan) _ built h2 in
    let (body0, made4, h4) = bind-eq-ok (stage_core staged core0_spec body1) _ built h3 in
    let (gate1, made5, h5) = bind-eq-ok (commit_core targets core1_spec body0) _ built h4 in
    let (gate0, made6, h6) = bind-eq-ok (commit_core targets core0_spec gate1) _ built h5 in
    finished baseline targets second gate0 built
      (Grows-trans start.plan first.plan gate0
        (poison_core-Grows baseline core0_spec start first made1)
        (Grows-trans first.plan second.plan gate0
          (poison_core-Grows baseline core1_spec first second made2)
          (Grows-trans second.plan body1 gate0
            (stage_core-GrowsAll staged core1_spec second.plan body1 made3)
            (Grows-trans body1 body0 gate0 (stage_core-GrowsAll staged core0_spec body1 body0 made4)
              (Grows-trans body0 gate1 gate0
                (commit_core-GrowsAll targets core1_spec body0 gate1 made5)
                (commit_core-GrowsAll targets core0_spec gate1 gate0 made6))))))
      h6
