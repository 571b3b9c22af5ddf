-- ===== src/Updater/Reconciled.antt =====
-- The classification of an image by kb7-updater-plan.py against a description of its classes.
use kb.Base.{
  ◌≡◌, refl, ap, ◌∙◌, ◌≢◌, ◌↔◌, inl, inr, Bool, true, false, not, arith, if◌then◌else◌, tests,
  Bool-cases, Bytes, eq_bytes, eq_bytes_sound, eq_bytes_refl,
}
use kb.Updater.Operations.{
  Phase, poison, stage, commit, Operation, Reconciliation, spi_recovery_required, exact_preimage,
  exact_postimage, modeled_partial_rebuild_active_sector, modeled_partial_sparse_gate,
  partial_class, classify_reconciliation,
}
use kb.Updater.Partial.{
  IsStage, IsCommit, SameSizes, IsPartial, outside_test, sizes_test, reach_iff, outside_iff,
  sizes_iff,
}

eq_bytes_iff : (xs ys : Bytes) → (eq_bytes xs ys ≡ true) ↔ (xs ≡ ys)
eq_bytes_iff xs ys = (eq_bytes_sound xs ys, (λ e. rw e (eq_bytes_refl ys)))

eq_bytes-false : (xs ys : Bytes) → xs ≢ ys → eq_bytes xs ys ≡ false
eq_bytes-false xs ys h = elim (Bool-cases (eq_bytes xs ys)) [
  | inl e ↦ absurd (h (eq_bytes_sound xs ys e))
  | inr e ↦ e
]

eq_bytes-differ : (xs ys : Bytes) → eq_bytes xs ys ≡ false → xs ≢ ys
eq_bytes-differ xs ys h e = no_both (eq_bytes xs ys) h (rw e (eq_bytes_refl ys))
  where
    no_both : (t : Bool) → t ≡ false → t ≡ true → ⊥
    no_both t h e = cc

-- The tests of `classify_reconciliation` in their order.
abbrev class_of : Bool → Bool → Bool → Bool → Bool → Reconciliation → Reconciliation
class_of sizes before after outside inside class =
    if not sizes
    then spi_recovery_required
    else if before
    then exact_preimage
    else if after
    then exact_postimage
    else if not outside
    then spi_recovery_required
    else if not inside
    then spi_recovery_required
    else class

class_of-before :
    (sizes before after outside inside : Bool) (phase : Phase)
    → class_of sizes before after outside inside (partial_class phase) ≡ exact_preimage
    → (sizes ≡ true) × (before ≡ true)
class_of-before sizes before after outside inside phase h = ground arith

class_of-after :
    (sizes before after outside inside : Bool) (phase : Phase)
    → class_of sizes before after outside inside (partial_class phase) ≡ exact_postimage
    → (sizes ≡ true) × (before ≡ false) × (after ≡ true)
class_of-after sizes before after outside inside phase h = ground arith

abbrev AllPass : Bool → Bool → Bool → Bool → Bool → Type 0
AllPass sizes before after outside inside =
    (sizes ≡ true) × (before ≡ false) × (after ≡ false) × (outside ≡ true) × (inside ≡ true)

-- The two classes of a partial effect.
abbrev is_partial_class : Reconciliation → Bool
is_partial_class spi_recovery_required = false
is_partial_class exact_preimage = false
is_partial_class exact_postimage = false
is_partial_class modeled_partial_rebuild_active_sector = true
is_partial_class modeled_partial_sparse_gate = true

class_of-partial :
    (sizes before after outside inside : Bool) (class found : Reconciliation)
    → is_partial_class found ≡ true
    → class_of sizes before after outside inside class ≡ found
    → AllPass sizes before after outside inside × (class ≡ found)
class_of-partial false before after outside inside class found p h = ground arith
class_of-partial true true after outside inside class found p h = ground arith
class_of-partial true false true outside inside class found p h = ground arith
class_of-partial true false false false inside class found p h = ground arith
class_of-partial true false false true false class found p h = ground arith
class_of-partial true false false true true class found p h = ((refl, refl, refl, refl, refl), h)

partial_class-IsStage :
    (phase : Phase) → partial_class phase ≡ modeled_partial_rebuild_active_sector → IsStage phase
partial_class-IsStage (stage c) h = (c, refl)
partial_class-IsStage (commit c) h = cc
partial_class-IsStage (poison c) h = cc

partial_class-IsCommit :
    (phase : Phase) → partial_class phase ≡ modeled_partial_sparse_gate → IsCommit phase
partial_class-IsCommit (stage c) h = cc
partial_class-IsCommit (commit c) h = (c, refl)
partial_class-IsCommit (poison c) h = cc

module _ (preimage observed postimage : Bytes) (operation : Operation) where
  abbrev IsClassed : Reconciliation → Type 0
  IsClassed class = classify_reconciliation preimage observed postimage operation ≡ class

  found_partial :
      (class : Reconciliation)
      → is_partial_class class ≡ true
      → IsClassed class
      → IsPartial preimage observed postimage operation × (partial_class operation.phase ≡ class)
  unfolding classify_reconciliation
  found_partial class p h =
      let (tests, same) =
        class_of-partial (sizes_test preimage observed postimage operation)
          (eq_bytes observed preimage) (eq_bytes observed postimage)
          (outside_test preimage observed postimage operation) _ (partial_class operation.phase)
          class p h in
      let sizes = (sizes_iff preimage observed postimage operation).0 tests.0 in
      let reach = (reach_iff preimage observed postimage operation sizes).0 tests.4 in
      (
        record {
          sizes = sizes;
          not_before = eq_bytes-differ observed preimage tests.1;
          not_after = eq_bytes-differ observed postimage tests.2;
          moving = reach.0;
          outside = (outside_iff preimage observed postimage operation).0 tests.3;
          inside = reach.1;
        },
        same,
      )

  partial_found :
      IsPartial preimage observed postimage operation → IsClassed (partial_class operation.phase)
  unfolding classify_reconciliation
  partial_found p =
      rw
        (
          (sizes_iff preimage observed postimage operation).1 p.sizes,
          eq_bytes-false observed preimage p.not_before,
          eq_bytes-false observed postimage p.not_after,
          (outside_iff preimage observed postimage operation).1 p.outside,
          (reach_iff preimage observed postimage operation p.sizes).1 (p.moving, p.inside),
        )
        refl

  -- The classes of an image, each described without the planner's tests.
  abbrev pub IsAccounted : Type 0
  IsAccounted =
      (IsClassed exact_preimage
        ↔ (SameSizes preimage observed postimage operation × (observed ≡ preimage)))
      × (IsClassed exact_postimage ↔ (
          SameSizes preimage observed postimage operation
          × (observed ≢ preimage)
          × (observed ≡ postimage)))
      × (IsClassed modeled_partial_rebuild_active_sector
          ↔ (IsPartial preimage observed postimage operation × IsStage operation.phase))
      × (IsClassed modeled_partial_sparse_gate
          ↔ (IsPartial preimage observed postimage operation × IsCommit operation.phase))

  before_iff :
      IsClassed exact_preimage
      ↔ (SameSizes preimage observed postimage operation × (observed ≡ preimage))
  unfolding classify_reconciliation
  before_iff = (
    (λ h.
        let tests = class_of-before _ (eq_bytes observed preimage) _ _ _ operation.phase h in
        (
          (sizes_iff preimage observed postimage operation).0 tests.0,
          eq_bytes_sound observed preimage tests.1,
        )),
    (λ h.
        rw
          (
            (sizes_iff preimage observed postimage operation).1 h.0,
            (eq_bytes_iff observed preimage).1 h.1,
          )
          refl),
  )

  after_iff : IsClassed exact_postimage ↔ (
      SameSizes preimage observed postimage operation
      × (observed ≢ preimage)
      × (observed ≡ postimage))
  unfolding classify_reconciliation
  after_iff = (
    (λ h.
        let tests = class_of-after _ (eq_bytes observed preimage) _ _ _ operation.phase h in
        (
          (sizes_iff preimage observed postimage operation).0 tests.0,
          eq_bytes-differ observed preimage tests.1,
          eq_bytes_sound observed postimage tests.2,
        )),
    (λ h.
        rw
          (
            (sizes_iff preimage observed postimage operation).1 h.0,
            eq_bytes-false observed preimage h.1,
            (eq_bytes_iff observed postimage).1 h.2,
          )
          refl),
  )

-- The class of every image is the one of its bytes and bits. It is an exact image when it equals
-- the image before the operation, or else the one after it. It is a partial rebuild of a stage, or
-- a partial gate of a commit, exactly when it is neither, has every byte outside the unit of the
-- operation, and has each bit of each byte of the unit between its values before and after: cleared
-- only by a program, set only by an erase. In each of these classes the three
-- images have the same size.
pub classify_reconciliation-IsAccounted :
    (preimage observed postimage : Bytes) (operation : Operation)
    → IsAccounted preimage observed postimage operation
classify_reconciliation-IsAccounted preimage observed postimage operation = (
  before_iff preimage observed postimage operation,
  after_iff preimage observed postimage operation,
  (
    (λ h.
        let (partial, same) = found_partial preimage observed postimage operation _ refl h in
        (partial, partial_class-IsStage operation.phase same)),
    (λ h. partial_found preimage observed postimage operation h.0 ∙ ap partial_class h.1.1),
  ),
  (
    (λ h.
        let (partial, same) = found_partial preimage observed postimage operation _ refl h in
        (partial, partial_class-IsCommit operation.phase same)),
    (λ h. partial_found preimage observed postimage operation h.0 ∙ ap partial_class h.1.1),
  ),
)
