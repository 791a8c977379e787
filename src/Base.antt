-- ===== src/Base.antt =====
-- Names that every module shares: the libraries', passed on, with tests, texts, lists and maps.
mod Tests
mod Lists
mod Texts
mod Strings
mod Maps
mod Sorting
mod Int
pub use Tests.*
pub use Lists.*
unfoldable pub use Texts.*
unfoldable pub use Strings.*
unfoldable pub use Maps.*
unfoldable pub use Sorting.*
unfoldable pub use Int.*
pub use Prim.Native.Nat.{ℕ, zero, suc, ◌+◌, ◌-◌, ◌*◌, ◌/◌, ◌%◌, ◌^◌, ◌≤◌, ◌<◌, min, max}
pub use mathlib.Core.Path.{◌≡◌, refl, sym, ap, ◌∙◌, subst}
pub use mathlib.Core.Logic.{◌≢◌, ◌↔◌, ◌⊎◌, inl, inr}
pub use mathlib.Core.Bool.{Bool, true, false, not, ◌&&◌, ◌||◌}
pub use mathlib.Core.Option.{Option, none, some}
pub use mathlib.Core.List.{List, [], ◌∷◌, ◌++◌, map, reverse}
pub use native.Mathlib.Omega.{arith}
