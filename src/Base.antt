-- ===== src/Base.antt =====
-- The names that the modules share: the libraries', passed on, and those of the children.
mod Tests
mod Lists
mod Slices
mod ByteStrings
mod Bits
mod Bitwise
mod Xor
mod BitOrder
mod Crc
mod Indexed
mod Texts
mod Actions
pub use Tests.*
pub use Lists.*
pub use Slices.*
pub use ByteStrings.*
pub use Bits.*
pub use Bitwise.*
pub use Xor.*
pub use BitOrder.*
unfoldable pub use Crc.*
pub use Indexed.*
unfoldable pub use Texts.*
pub use Actions.*
pub use Prim.Native.Nat.{
  ℕ, zero, suc, ◌+◌, ◌-◌, ◌*◌, ◌/◌, ◌%◌, ◌^◌, ◌≤◌, ◌<◌, min, bit_and, bit_or, bit_xor,
}
pub use mathlib.Core.Path.{◌≡◌, refl, sym, ap, ap₂, subst, ◌∙◌}
pub use mathlib.Core.Logic.{◌≢◌, ◌↔◌, ◌⊎◌, inl, inr}
pub use mathlib.Core.Bool.{Bool, true, false, ◌&&◌, ◌||◌, not}
pub use mathlib.Core.Option.{Option, none, some}
pub use mathlib.Core.List.{List, [], ◌∷◌, ◌++◌, map, append_assoc, append-nil}
pub use native.Mathlib.Omega.{arith}
