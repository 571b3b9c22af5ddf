-- ===== src/Updater/Between.antt =====
-- `transition_reachable` of kb7-updater-plan.py, bit by bit.
use kb.Base.{
  ℕ, zero, suc, bit_and, bit_or, ◌≡◌, refl, ◌↔◌, Bool, true, ◌&&◌, some, [], ◌∷◌, arith, ◌==◌,
  ==_iff, ==_refl, IsBelow, bit_and_iff, bit_or_iff, length, get_elem?, Bytes,
}
use kb.Updater.Operations.{
  OperationAction, program_action, erase_action, other_action, clears_through, sets_through,
  transition_reachable,
}

-- A byte on the way from the first to the last: a program clears bits only, an erase sets bits
-- only, and nothing else moves a bit.
abbrev pub IsByteBetween : OperationAction → ℕ → ℕ → ℕ → Type 0
IsByteBetween program_action before current after = IsBelow current before × IsBelow after current
IsByteBetween erase_action before current after = IsBelow before current × IsBelow current after
IsByteBetween other_action before current after = ⊥

-- The same at every index of three byte strings.
abbrev pub AllBetween : OperationAction → Bytes → Bytes → Bytes → Type 0
AllBetween action preimage observed postimage =
    (k before current after : ℕ)
    → get_elem? preimage k ≡ some before
    → get_elem? observed k ≡ some current
    → get_elem? postimage k ≡ some after
    → IsByteBetween action before current after

and-split : (s t : Bool) (r : Bool) → (s && t && r) ≡ true → (s ≡ true) × (t ≡ true) × (r ≡ true)
and-split s t r h = ground arith

-- The bits of a byte that passes the two tests.
clears-IsByteBetween :
    (x y z : ℕ)
    → (((bit_and x y == y) ≡ true) × ((bit_and y z == z) ≡ true))
      ↔ IsByteBetween program_action x y z
clears-IsByteBetween x y z = (
  (λ h. (
    (bit_and_iff x y).0 ((==_iff (bit_and x y) y).0 h.0),
    (bit_and_iff y z).0 ((==_iff (bit_and y z) z).0 h.1),
  )),
  (λ h. (
    (==_iff (bit_and x y) y).1 ((bit_and_iff x y).1 h.0),
    (==_iff (bit_and y z) z).1 ((bit_and_iff y z).1 h.1),
  )),
)

sets-IsByteBetween :
    (x y z : ℕ)
    → (((bit_or x y == y) ≡ true) × ((bit_or y z == z) ≡ true)) ↔ IsByteBetween erase_action x y z
sets-IsByteBetween x y z = (
  (λ h. (
    (bit_or_iff x y).0 ((==_iff (bit_or x y) y).0 h.0),
    (bit_or_iff y z).0 ((==_iff (bit_or y z) z).0 h.1),
  )),
  (λ h. (
    (==_iff (bit_or x y) y).1 ((bit_or_iff x y).1 h.0),
    (==_iff (bit_or y z) z).1 ((bit_or_iff y z).1 h.1),
  )),
)

some_injective : (x y : ℕ) → some x ≡ some y → x ≡ y
some_injective x y e = cc

module _ (action : OperationAction) where
  between-nil : (cs ps : Bytes) → AllBetween action [] cs ps
  between-nil cs ps k b c a e e' e'' = cc

  between-nil_second : (bs ps : Bytes) → AllBetween action bs [] ps
  between-nil_second bs ps k b c a e e' e'' = cc

  between-nil_third : (bs cs : Bytes) → AllBetween action bs cs []
  between-nil_third bs cs k b c a e e' e'' = cc

  between-cons :
      (x y z : ℕ) (bs cs ps : Bytes)
      → IsByteBetween action x y z
      → AllBetween action bs cs ps
      → AllBetween action (x ∷ bs) (y ∷ cs) (z ∷ ps)
  between-cons x y z bs cs ps here later zero b c a e e' e'' =
      rw (← some_injective x b e, ← some_injective y c e', ← some_injective z a e'') here
  between-cons x y z bs cs ps here later (suc k) b c a e e' e'' = later k b c a e e' e''

clears_through-AllBetween :
    (bs cs ps : Bytes) → clears_through bs cs ps ≡ true → AllBetween program_action bs cs ps
clears_through-AllBetween [] cs ps h = between-nil program_action cs ps
clears_through-AllBetween (x ∷ bs) [] ps h = between-nil_second program_action (x ∷ bs) ps
clears_through-AllBetween (x ∷ bs) (y ∷ cs) [] h =
    between-nil_third program_action (x ∷ bs) (y ∷ cs)
clears_through-AllBetween (x ∷ bs) (y ∷ cs) (z ∷ ps) h =
    let (first, second, rest) =
      and-split (bit_and x y == y) (bit_and y z == z) (clears_through bs cs ps) h in
    between-cons program_action x y z bs cs ps ((clears-IsByteBetween x y z).0 (first, second))
      (clears_through-AllBetween bs cs ps rest)

sets_through-AllBetween :
    (bs cs ps : Bytes) → sets_through bs cs ps ≡ true → AllBetween erase_action bs cs ps
sets_through-AllBetween [] cs ps h = between-nil erase_action cs ps
sets_through-AllBetween (x ∷ bs) [] ps h = between-nil_second erase_action (x ∷ bs) ps
sets_through-AllBetween (x ∷ bs) (y ∷ cs) [] h = between-nil_third erase_action (x ∷ bs) (y ∷ cs)
sets_through-AllBetween (x ∷ bs) (y ∷ cs) (z ∷ ps) h =
    let (first, second, rest) =
      and-split (bit_or x y == y) (bit_or y z == z) (sets_through bs cs ps) h in
    between-cons erase_action x y z bs cs ps ((sets-IsByteBetween x y z).0 (first, second))
      (sets_through-AllBetween bs cs ps rest)

AllBetween-clears_through :
    (bs cs ps : Bytes) → AllBetween program_action bs cs ps → clears_through bs cs ps ≡ true
AllBetween-clears_through [] cs ps h = refl
AllBetween-clears_through (x ∷ bs) [] ps h = refl
AllBetween-clears_through (x ∷ bs) (y ∷ cs) [] h = refl
AllBetween-clears_through (x ∷ bs) (y ∷ cs) (z ∷ ps) h =
    let here = (clears-IsByteBetween x y z).1 (h 0 x y z refl refl refl) in
    rw (here.0, here.1)
      (AllBetween-clears_through bs cs ps (λ k b c a e e' e''. h (suc k) b c a e e' e''))

AllBetween-sets_through :
    (bs cs ps : Bytes) → AllBetween erase_action bs cs ps → sets_through bs cs ps ≡ true
AllBetween-sets_through [] cs ps h = refl
AllBetween-sets_through (x ∷ bs) [] ps h = refl
AllBetween-sets_through (x ∷ bs) (y ∷ cs) [] h = refl
AllBetween-sets_through (x ∷ bs) (y ∷ cs) (z ∷ ps) h =
    let here = (sets-IsByteBetween x y z).1 (h 0 x y z refl refl refl) in
    rw (here.0, here.1)
      (AllBetween-sets_through bs cs ps (λ k b c a e e' e''. h (suc k) b c a e e' e''))

-- An action that moves bits at all.
abbrev pub IsMoving : OperationAction → Type 0
IsMoving program_action = Unit
IsMoving erase_action = Unit
IsMoving other_action = ⊥

-- For three byte strings of one length the test is whether every byte is between.
pub transition_reachable_iff :
    (preimage observed postimage : Bytes) (action : OperationAction)
    → length preimage ≡ length observed
    → length observed ≡ length postimage
    → (transition_reachable preimage observed postimage action ≡ true)
      ↔ (IsMoving action × AllBetween action preimage observed postimage)
unfolding transition_reachable
transition_reachable_iff preimage observed postimage program_action e e' =
    rw (e, e', ==_refl (length postimage))
      (
        (λ h. (tt, clears_through-AllBetween preimage observed postimage h)),
        (λ h. AllBetween-clears_through preimage observed postimage h.1),
      )
transition_reachable_iff preimage observed postimage erase_action e e' =
    rw (e, e', ==_refl (length postimage))
      (
        (λ h. (tt, sets_through-AllBetween preimage observed postimage h)),
        (λ h. AllBetween-sets_through preimage observed postimage h.1),
      )
transition_reachable_iff preimage observed postimage other_action e e' =
    rw (e, e', ==_refl (length postimage)) ((λ h. cc), (λ h. absurd h.0))
