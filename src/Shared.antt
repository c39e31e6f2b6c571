-- ===== src/Shared.antt =====
-- The names that the other modules share: the libraries', passed on, the Boolean tests on the
-- native numbers, the association lists that stand for Go's maps (Shared/Maps.antt), and slices
-- and texts.
mod Tests
mod Maps
mod Decimal
mod Text
mod Slices
pub use Tests.*
unfoldable pub use Decimal.*
unfoldable pub use Maps.*
unfoldable pub use Text.*
pub use Slices.*
pub use Prim.Native.Nat.{ℕ, zero, suc, ◌+◌, ◌-◌, ◌*◌, ◌/◌, ◌%◌, ◌^◌, ◌≤◌, ◌<◌}
pub use Prim.Native.String.{String}
pub use mathlib.Core.Path.{◌≡◌, refl, sym, ap, ◌∙◌, subst}
pub use mathlib.Core.Logic.{◌≢◌, ◌↔◌, ◌⊎◌, inl, inr}
pub use mathlib.Core.Bool.{Bool, true, false, not, ◌&&◌, ◌||◌}
pub use mathlib.Core.Option.{Option, none, some}
pub use mathlib.Core.List.{List, [], ◌∷◌, ◌++◌, map}
pub use native.Mathlib.Omega.{arith}
