-- ===== src/Base.antt =====
-- The names that the other modules share: the libraries', passed on, the tests on numbers and
-- texts, lists over the native numbers, and tables of rows.
mod Tests
mod Lists
pub mod Table
pub mod Texts
pub mod Decimal
pub mod Sort
pub mod Queries
pub mod Passes
pub mod Prefix
pub use Tests.*
unfoldable pub use Tests.{String_discrete}
pub use Lists.*
unfoldable pub use Lists.{take}
pub use Prim.Native.Nat.{ℕ, zero, suc, ◌+◌, ◌-◌, ◌*◌, ◌^◌, ◌≤◌, ◌<◌, min}
pub use Prim.Native.String.{String}
pub use mathlib.Core.Path.{◌≡◌, refl, sym, ap, subst, ◌∙◌}
pub use mathlib.Core.Logic.{◌≢◌, ◌↔◌, ◌⊎◌, inl, inr}
pub use mathlib.Core.Bool.{Bool, true, false, not, ◌&&◌, ◌||◌}
pub use mathlib.Core.Option.{Option, none, some}
pub use mathlib.Core.List.{List, [], ◌∷◌, ◌++◌, map}
pub use native.Mathlib.Omega.{arith}
