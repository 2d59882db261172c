-- ===== src/Base.antt =====
-- The names that the other modules share: those of the libraries, passed on, and those of its
-- children, which hold the Boolean tests, the lists and the results of fallible code.
mod Tests
mod Lists
mod Results
mod Keys
mod Rows
pub mod Int
pub mod Text
pub mod Space
pub use Tests.*
unfoldable pub use Lists.*
pub use Results.*
pub use Keys.*
pub use Rows.*
pub use Prim.Native.Nat.{ℕ, zero, suc, ◌+◌, ◌-◌, ◌*◌, ◌/◌, ◌%◌, ◌^◌, ◌≤◌, ◌<◌}
pub use mathlib.Core.Path.{◌≡◌, refl, sym, ap, ◌∙◌, subst}
pub use mathlib.Core.Logic.{◌≢◌, ◌↔◌, ◌⊎◌, inl, inr}
pub use mathlib.Core.Bool.{Bool, true, false, not, ◌&&◌, ◌||◌}
pub use mathlib.Core.Option.{Option, none, some}
pub use mathlib.Core.List.{List, [], ◌∷◌, ◌++◌, map}
pub use native.Mathlib.Omega.{arith}
