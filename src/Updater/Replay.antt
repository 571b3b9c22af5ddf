-- ===== src/Updater/Replay.antt =====
-- A list of operations of the planner, applied one after the other, and what a staging function
-- must do: the operations that it appends make its image from the one that it was given.
use kb.Base.{
  ◌≡◌, refl, sym, ap, ◌∙◌, List, [], ◌∷◌, ◌++◌, append_assoc, append-nil, Bytes, Result, ok, err,
}
use kb.Updater.Regions.{PlanFault}
use kb.Updater.Operations.{Operation, apply_operation}
use kb.Updater.Staging.{Plan, append_operation}

abbrev pub replay : Bytes → List Operation → Result PlanFault Bytes
replay image [] = ok image
replay image (operation ∷ rest) = elim (apply_operation image operation) [
  | err e ↦ err e
  | ok next ↦ replay next rest
]

abbrev replay_rest : Result PlanFault Bytes → List Operation → Result PlanFault Bytes
replay_rest (ok image) operations = replay image operations
replay_rest (err e) operations = err e

replay-append_rest :
    (image : Bytes) (first second : List Operation)
    → replay image (first ++ second) ≡ replay_rest (replay image first) second
replay-append_rest image [] second = refl
replay-append_rest image (operation ∷ rest) second =
    elim (apply_operation image operation)
      as (λ r.
        (elim r [ err e ↦ err e | ok next ↦ replay next (rest ++ second) ])
        ≡ replay_rest (elim r [ err e ↦ err e | ok next ↦ replay next rest ]) second) [
          | err e ↦ refl
          | ok next ↦ replay-append_rest next rest second
        ]

pub replay-append :
    (image : Bytes) (first second : List Operation) (middle : Bytes)
    → replay image first ≡ ok middle
    → replay image (first ++ second) ≡ replay middle second
replay-append image first second middle h =
    replay-append_rest image first second ∙ ap (λ r. replay_rest r second) h

-- A staging step returns a plan with this image, whose new operations replay to it.
abbrev pub Staged : Plan → Bytes → Result PlanFault Plan → Type 0
Staged plan image result =
    (added : List Operation) × (result
      ≡ ok (record { operations = plan.operations ++ added; current = image }))
    × (replay plan.current added ≡ ok image)

pub Staged-done : (plan : Plan) → Staged plan plan.current (ok plan)
Staged-done plan = (
  [],
  λ i. ok (record { operations = sym (append-nil plan.operations) i; current = plan.current }),
  refl,
)

-- `do` the next step on the plan of the first.
abbrev pub next_step :
    Result PlanFault Plan → (Plan → Result PlanFault Plan) → Result PlanFault Plan
next_step result step = elim result [ err e ↦ err e | ok plan ↦ step plan ]

pub Staged-next_step :
    (plan : Plan) (image image' : Bytes) (result : Result PlanFault Plan)
    (step : Plan → Result PlanFault Plan)
    → Staged plan image result
    → ((operations : List Operation)
        → Staged
            (record { operations = operations; current = image })
            image'
            (step (record { operations = operations; current = image })))
    → Staged plan image' (next_step result step)
Staged-next_step plan image image' result step first second =
    let rest = second (plan.operations ++ first.0) in
    (
      first.0 ++ rest.0,
      ap (λ r. next_step r step) first.1
          ∙ rest.1
          ∙ ap (λ ops. ok (record { operations = ops; current = image' }))
              (append_assoc plan.operations first.0 rest.0),
      replay-append plan.current first.0 rest.0 image first.2 ∙ rest.2,
    )

pub append_operation-Staged :
    (plan : Plan) (operation : Operation) (image : Bytes)
    → apply_operation plan.current operation ≡ ok image
    → Staged plan image (append_operation plan operation)
unfolding append_operation
append_operation-Staged plan operation image h =
    (operation ∷ [], rw (h, append_operation), rw (h, replay))
