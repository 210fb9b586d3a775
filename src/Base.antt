-- ===== src/Base.antt =====
-- Names that every module shares: the libraries' names passed on, Boolean tests, lists, integers
-- and Python strings as lists of code points.
mod Tests
mod Lists
mod Select
mod Int
mod Decimals
mod Text
mod Strings
unfoldable pub use Tests.*
unfoldable pub use Lists.*
unfoldable pub use Select.*
unfoldable pub use Int.*
unfoldable pub use Decimals.*
unfoldable pub use Text.*
unfoldable pub use Strings.*
pub use Prim.Native.Nat.{ℕ, zero, suc, ◌+◌, ◌-◌, ◌*◌, ◌/◌, ◌%◌, ◌^◌, ◌≤◌, ◌<◌, min, max}
pub use mathlib.Core.Path.{◌≡◌, refl, sym, ap, ◌∙◌}
pub use mathlib.Core.Logic.{◌≢◌, ◌↔◌, ◌⊎◌, inl, inr}
pub use mathlib.Core.Bool.{Bool, true, false, not, ◌&&◌, ◌||◌}
pub use mathlib.Core.Option.{Option, none, some}
pub use mathlib.Core.List.{List, [], ◌∷◌, ◌++◌, map}
pub use native.Mathlib.Omega.{arith}
