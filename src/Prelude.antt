-- ===== src/Prelude.antt =====
-- The names that the other modules share: the libraries', passed on, and those of the children.
mod Bits
mod Tests
mod Lists
mod Outcome
mod ByteStrings
mod Maps
mod BigEndian
pub use Bits.*
pub use Tests.*
pub use Lists.*
pub use Outcome.*
unfoldable pub use Tests.{holds_below}
unfoldable pub use ByteStrings.{index, slice, slice_from, Bytes-discrete}
unfoldable pub use Maps.{get, insert, remove}
unfoldable pub use BigEndian.{to_be_bytes, of_be_bytes}
pub use BigEndian.*
pub use ByteStrings.*
pub use Maps.*
pub use Prim.Native.Nat.{
  ℕ, zero, suc, ◌+◌, ◌-◌, ◌*◌, ◌/◌, ◌%◌, ◌^◌, ◌≤◌, ◌<◌, min, max, bit_and, bit_or, bit_xor,
}
pub use mathlib.Core.Path.{◌≡◌, refl, sym, ap, ap₂, ◌∙◌}
pub use mathlib.Core.Logic.{◌≢◌, ◌↔◌, ◌⊎◌, inl, inr}
pub use mathlib.Core.Bool.{Bool, true, false, not, ◌&&◌, ◌||◌}
pub use mathlib.Core.Option.{Option, none, some}
pub use mathlib.Core.List.{List, [], ◌∷◌, ◌++◌, map}
pub use native.Mathlib.Omega.{arith}
