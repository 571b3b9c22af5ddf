-- ===== src/Base/Bits.antt =====
-- Facts about `&` and `|` on bytes, by evaluation over the whole range.
use Prim.Native.Nat.{ℕ, zero, suc, ◌<◌, bit_and, bit_or}
use mathlib.Core.Path.{◌≡◌, refl}
use mathlib.Core.Bool.{Bool, true, false}
use native.Mathlib.Omega.{arith}
use kb.Base.Tests.{◌==◌, ==_iff, if◌then◌else◌}

-- Whether a test holds of every number below a bound.
holds_below : (ℕ → Bool) → ℕ → Bool
holds_below test zero = true
holds_below test (suc n) = if test n then holds_below test n else false

holds_below_lem : (test : ℕ → Bool) (n x : ℕ) → holds_below test n ≡ true → x < n → test x ≡ true
unfolding holds_below
holds_below_lem test zero x h below = absurd (omega arith)
holds_below_lem test (suc n) x h below = ground (arith, holds_below_lem test n x)

or_table : holds_below (λ x. bit_or x 255 == 255) 256 ≡ true
unfolding holds_below
or_table = refl

pub bit_or-full : (x : ℕ) → x < 256 → bit_or x 255 ≡ 255
bit_or-full x h = (==_iff _ 255).0 (holds_below_lem _ 256 x or_table h)

and_table : holds_below (λ x. bit_and 255 x == x) 256 ≡ true
unfolding holds_below
and_table = refl

pub bit_and-full : (x : ℕ) → x < 256 → bit_and 255 x ≡ x
bit_and-full x h = (==_iff _ x).0 (holds_below_lem _ 256 x and_table h)
