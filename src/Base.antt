-- ===== src/Base.antt =====
-- Names, tests, lists, bytes and the automation that the other modules share.
mod Tests
mod Lists
mod Bits
mod Slices
mod Checked
mod BigEndian
mod Utf8
mod Text
pub use Tests.*
pub use Lists.*
unfoldable pub use BigEndian.*
unfoldable pub use Utf8.*
unfoldable pub use Text.*
pub use Bits.*
unfoldable pub use Slices.*
unfoldable pub use Checked.*
pub use Prim.Native.Nat.{
  ℕ, zero, suc, ◌+◌, ◌-◌, ◌*◌, ◌/◌, ◌%◌, ◌^◌, ◌≤◌, ◌<◌, bit_and, bit_or, min, max,
}
pub use Prim.Native.String.{String}
pub use mathlib.Core.Path.{◌≡◌, refl, sym, ap, ◌∙◌, subst}
pub use mathlib.Core.Logic.{◌≢◌, ◌↔◌, ◌⊎◌, inl, inr}
pub use mathlib.Core.Bool.{Bool, true, false, not, ◌&&◌, ◌||◌}
pub use mathlib.Core.Option.{Option, none, some}
pub use mathlib.Core.List.{List, [], ◌∷◌, ◌++◌, map, append-nil, append_assoc}
pub use native.Mathlib.Omega.{arith}
