-- ===== src/Updater/Simulation/Boundaries.antt =====
-- What an accepted simulation says of the images between its operations.
use kb.Base.{
  ℕ, suc, ◌≡◌, refl, ap, subst, ◌⊎◌, inl, inr, Bool, true, false, ◌||◌, not, List, [], ◌∷◌, slice,
  Bytes, eq_bytes, Result, ok,
}
use kb.Updater.Regions.{PlanFault, Core}
use kb.Updater.Operations.{Operation, operation_length, apply_operation}
use kb.Updater.Applied.{require-eq-ok}
use kb.Updater.Build.{bind-eq-ok}
use kb.Updater.Sequence.{core_checksums}
use kb.Updater.Simulation.{holds_regions, is_bootable, no_counts}
use kb.Updater.Simulation.Run.{
  Setting, command_of, check_step, Simulated, simulate_step, simulate_loop, Report, Trace,
  setting_of, simulate,
}

-- Every image between the operations boots no other pair than the target.
abbrev pub IsGuarded : (Core → Bytes) → Bytes → List Operation → Type 0
IsGuarded targets image [] = Unit
IsGuarded targets image (operation ∷ rest) =
    (next : Bytes) × (apply_operation image operation ≡ ok next)
    × ((is_bootable (core_checksums next) ≡ false) ⊎ (holds_regions next targets ≡ true))
    × IsGuarded targets next rest

or-eq-true : (a b : Bool) → (not a || b) ≡ true → (a ≡ false) ⊎ (b ≡ true)
or-eq-true true b h = inr h
or-eq-true false b h = inl refl

ok_injective : (a b : Simulated) → ◌≡◌ {A = Result PlanFault Simulated} (ok a) (ok b) → a ≡ b
ok_injective a b e = cc

simulate_step-guarded :
    (s : Setting) (index : ℕ) (operation : Operation) (state next : Simulated)
    → simulate_step s index operation state ≡ ok next
    → (apply_operation state.image operation ≡ ok next.image)
      × ((is_bootable (core_checksums next.image) ≡ false)
          ⊎ (holds_regions next.image s.targets ≡ true))
unfolding simulate_step check_step
simulate_step-guarded s index operation state next h =
    let (image, applied, more) = bind-eq-ok (apply_operation state.image operation) _ next h in
    let (done, checked, last) = bind-eq-ok (check_step s operation state.image image) _ next more in
    let (cdb, made, same) = bind-eq-ok (command_of operation) _ next last in
    let (changed, kept) =
      require-eq-ok
        (not (
          eq_bytes (slice state.image operation.offset (operation_length operation.action))
            (slice image operation.offset (operation_length operation.action))))
        _ done checked in
    let (reachable, kept') = require-eq-ok _ _ done kept in
    let (guarded, kept'') =
      require-eq-ok (not (is_bootable (core_checksums image)) || holds_regions image s.targets) _
        done kept' in
    subst
      (λ i.
        (apply_operation state.image operation ≡ ok i)
        × ((is_bootable (core_checksums i) ≡ false) ⊎ (holds_regions i s.targets ≡ true)))
      (ap (λ (st : Simulated). st.image) (ok_injective _ next same))
      (
        applied,
        or-eq-true (is_bootable (core_checksums image)) (holds_regions image s.targets) guarded,
      )

simulate_loop-IsGuarded :
    (s : Setting) (index : ℕ) (operations : List Operation) (state last : Simulated)
    → simulate_loop s index operations state ≡ ok last
    → IsGuarded s.targets state.image operations
simulate_loop-IsGuarded s index [] state last h = tt
simulate_loop-IsGuarded s index (operation ∷ rest) state last h =
    let (next, step, more) =
      bind-eq-ok (simulate_step s index operation state) (simulate_loop s (suc index) rest) last
        h in
    let (applied, guarded) = simulate_step-guarded s index operation state next step in
    (next.image, applied, guarded, simulate_loop-IsGuarded s (suc index) rest next last more)

-- A plan that the simulation accepts boots no pair but the target between its operations.
pub simulate-IsGuarded :
    (sha256 : Bytes → Bytes) (baseline : Bytes) (targets staged : Core → Bytes)
    (operations : List Operation) (result : List Trace × Report)
    → simulate sha256 baseline targets staged operations ≡ ok result
    → IsGuarded targets baseline operations
unfolding simulate
simulate-IsGuarded sha256 baseline targets staged operations result h =
    let (last, run, more) =
      bind-eq-ok
        (simulate_loop (setting_of sha256 baseline targets staged) 0 operations
          (record { image = baseline; traces = []; counters = no_counts }))
        _ result h in
    simulate_loop-IsGuarded (setting_of sha256 baseline targets staged) 0 operations
      (record { image = baseline; traces = []; counters = no_counts }) last run
