-- ===== src/Base/Actions.antt =====
-- A method call: a state and exceptions. The state comes back after a raise too.
use mathlib.Core.Path.{◌≡◌}
use mathlib.Core.Bool.{Bool, true, false}
use native.Mathlib.Omega.{arith}
use kb.Base.Tests.{if◌then◌else◌}

pub data Result {ℓ} (E : Type ℓ) (A : Type ℓ) : Type ℓ where
  ok : A → Result E A
  err : E → Result E A

abbrev pub Action : Type 0 → Type 0 → Type 0 → Type 0
Action S E A = S → Result E A × S

module _ {S E A : Type 0} where
  abbrev pub pure : A → Action S E A
  pure a s = (ok a, s)

  abbrev pub raise : E → Action S E A
  raise e s = (err e, s)

  -- A computation without state, run as an action.
  abbrev pub lift : Result E A → Action S E A
  lift r s = (r, s)

infixl 5 ◌>>=◌ ◌>>◌
abbrev pub ◌>>=◌ : {S E A B : Type 0} → Action S E A → (A → Action S E B) → Action S E B
◌>>=◌ m f s = let (r, s') = m s in elim r [ ok a ↦ f a s' | err e ↦ raise e s' ]

abbrev pub ◌>>◌ : {S E A B : Type 0} → Action S E A → Action S E B → Action S E B
m >> k = m >>= λ _. k

module _ {S E : Type 0} where
  abbrev pub raise_if : Bool → E → Action S E (Unit {0})
  raise_if true e = raise e
  raise_if false e = pure tt

  abbrev pub modify : (S → S) → Action S E (Unit {0})
  modify f s = (ok tt, f s)

-- What a guarded result says of its test.
pub guard-eq-ok :
    {E A : Type 0} (t : Bool) (e : E) (x y : A)
    → (if t then err e else ok x) ≡ ok y
    → (t ≡ false) × (x ≡ y)
guard-eq-ok t e x y h = ground arith

pub then-eq-ok :
    {E A : Type 0} (t : Bool) (e : E) (r : Result E A) (y : A)
    → (if t then err e else r) ≡ ok y
    → (t ≡ false) × (r ≡ ok y)
then-eq-ok t e r y h = ground arith
