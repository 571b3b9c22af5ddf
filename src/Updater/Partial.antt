-- ===== src/Updater/Partial.antt =====
-- A partial effect of an operation of kb7-updater-plan.py, described by bytes and bits, and the
-- tests of `classify_reconciliation` for it.
use kb.Base.{
  ℕ, ◌+◌, ◌-◌, ◌≤◌, ◌<◌, ◌≡◌, refl, sym, ap, subst, ◌∙◌, ◌≢◌, ◌↔◌, ◌⊎◌, inl, inr, Bool, true, ◌&&◌,
  Option, none, some, arith, ◌==◌, ==_iff, ==_refl, and-eq-true, length, get_elem?, take, drop,
  length-take, length-drop, slice, Bytes, eq_bytes, eq_bytes_sound, eq_bytes_refl, lt-or-le,
  get_elem?-drop, get_elem?-take, get_elem?-take_past, get_elem?-slice, get_elem?_equal,
  slice_equal,
}
use kb.Updater.Regions.{Core}
use kb.Updater.Operations.{Phase, stage, commit, Operation, operation_length, transition_reachable}
use kb.Updater.Between.{IsByteBetween, AllBetween, IsMoving, transition_reachable_iff}

abbrev pub IsStage : Phase → Type 0
IsStage phase = (c : Core) × (phase ≡ stage c)

abbrev pub IsCommit : Phase → Type 0
IsCommit phase = (c : Core) × (phase ≡ commit c)

module _ (preimage observed postimage : Bytes) (operation : Operation) where
  abbrev pub start : ℕ
  start = operation.offset

  abbrev pub unit_length : ℕ
  unit_length = operation_length operation.action

  abbrev pub SameSizes : Type 0
  SameSizes = (length preimage ≡ length observed) × (length observed ≡ length postimage)

  -- Every byte outside the unit is the one before the operation.
  abbrev pub IsKeptOutside : Type 0
  IsKeptOutside =
      (k : ℕ)
      → (k < start) ⊎ (start + unit_length ≤ k)
      → get_elem? observed k ≡ get_elem? preimage k

  -- Every byte of the unit is on the way from the one before to the one after.
  abbrev pub IsBetweenInside : Type 0
  IsBetweenInside =
      (k before current after : ℕ)
      → k < unit_length
      → get_elem? preimage (start + k) ≡ some before
      → get_elem? observed (start + k) ≡ some current
      → get_elem? postimage (start + k) ≡ some after
      → IsByteBetween operation.action before current after

  -- An image that is neither exact, and a partial effect of the operation on its unit.
  pub record IsPartial : Type 0 where
    pub sizes : SameSizes
    pub not_before : observed ≢ preimage
    pub not_after : observed ≢ postimage
    pub moving : IsMoving operation.action
    pub outside : IsKeptOutside
    pub inside : IsBetweenInside

  slices-between :
      (AllBetween operation.action
        (slice preimage start unit_length)
        (slice observed start unit_length)
        (slice postimage start unit_length))
      ↔ IsBetweenInside
  slices-between = (
    (λ all k b c a below e e' e''.
        all k b c a (get_elem?-slice preimage start unit_length k below ∙ e)
          (get_elem?-slice observed start unit_length k below ∙ e')
          (get_elem?-slice postimage start unit_length k below ∙ e'')),
    (λ inside k b c a e e' e''. elim (lt-or-le k unit_length) [
      | inl below ↦
          inside k b c a below (sym (get_elem?-slice preimage start unit_length k below) ∙ e)
            (sym (get_elem?-slice observed start unit_length k below) ∙ e')
            (sym (get_elem?-slice postimage start unit_length k below) ∙ e'')
      | inr past ↦
          absurd
            (no_byte b (sym (get_elem?-take_past unit_length (drop start preimage) k past) ∙ e))
    ]),
  )
    where
      no_byte : (b : ℕ) → ◌≡◌ {A = Option ℕ} none (some b) → ⊥
      no_byte b e = cc

  pub reach_iff :
      SameSizes
      → (transition_reachable
            (slice preimage start unit_length)
            (slice observed start unit_length)
            (slice postimage start unit_length)
            operation.action
          ≡ true)
        ↔ (IsMoving operation.action × IsBetweenInside)
  reach_iff sizes =
      let reach =
        transition_reachable_iff (slice preimage start unit_length)
          (slice observed start unit_length) (slice postimage start unit_length) operation.action
          (slice_sizes preimage observed sizes.0) (slice_sizes observed postimage sizes.1) in
      (
        (λ h. ((reach.0 h).0, slices-between.0 (reach.0 h).1)),
        (λ h. reach.1 (h.0, slices-between.1 h.1)),
      )
    where
      slice_sizes :
          (xs ys : Bytes)
          → length xs ≡ length ys
          → length (slice xs start unit_length) ≡ length (slice ys start unit_length)
      slice_sizes xs ys e = omega (
        arith,
        e,
        length-take unit_length (drop start xs),
        length-drop start xs,
        length-take unit_length (drop start ys),
        length-drop start ys,
      )

  -- The test of the bytes outside.
  abbrev pub outside_test : Bool
  outside_test =
      eq_bytes (take start observed) (take start preimage)
      && eq_bytes (drop (start + unit_length) observed) (drop (start + unit_length) preimage)

  pub outside_iff : (outside_test ≡ true) ↔ IsKeptOutside
  outside_iff = (
    (λ h k place.
        let (front, back) =
          and-eq-true (eq_bytes (take start observed) (take start preimage)) _ h in
        elim place [
          | inl below ↦
              sym (get_elem?-take start observed k below)
              ∙ ap (λ (xs : Bytes). get_elem? xs k) (eq_bytes_sound _ _ front)
              ∙ get_elem?-take start preimage k below
          | inr past ↦ behind k past (eq_bytes_sound _ _ back)
        ]),
    (λ kept.
        let front : take start observed ≡ take start preimage =
          slice_equal observed preimage 0 0 start (λ j below. kept (0 + j) (inl (omega arith))) in
        let back : drop (start + unit_length) observed ≡ drop (start + unit_length) preimage =
          get_elem?_equal _ _ (λ j.
            get_elem?-drop (start + unit_length) observed j
            ∙ kept (start + unit_length + j) (inr (omega arith))
            ∙ sym (get_elem?-drop (start + unit_length) preimage j)) in
        rw
          (
            front,
            back,
            eq_bytes_refl (take start preimage),
            eq_bytes_refl (drop (start + unit_length) preimage),
          )
          refl),
  )
    where
      behind :
          (k : ℕ)
          → start + unit_length ≤ k
          → drop (start + unit_length) observed ≡ drop (start + unit_length) preimage
          → get_elem? observed k ≡ get_elem? preimage k
      behind k past e =
          let there : start + unit_length + (k - (start + unit_length)) ≡ k = omega arith in
          subst (λ (m : ℕ). get_elem? observed m ≡ get_elem? preimage m) there
            (sym (get_elem?-drop (start + unit_length) observed (k - (start + unit_length)))
              ∙ ap (λ (xs : Bytes). get_elem? xs (k - (start + unit_length))) e
              ∙ get_elem?-drop (start + unit_length) preimage (k - (start + unit_length)))

  abbrev pub sizes_test : Bool
  sizes_test = length preimage == length observed && length observed == length postimage

  pub sizes_iff : (sizes_test ≡ true) ↔ SameSizes
  sizes_iff = (
    (λ h.
        let (first, second) = and-eq-true (length preimage == length observed) _ h in
        ((==_iff _ _).0 first, (==_iff _ _).0 second)),
    (λ h. rw (h.0, h.1, ==_refl (length postimage)) refl),
  )
