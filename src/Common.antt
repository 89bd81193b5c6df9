-- ===== src/Common.antt =====
-- Names and helpers that the models share: the library's, passed on, Boolean tests on native
-- numbers, lists measured by them, C strings, integers, and the outcome of a run.
mod Strings
mod Addresses
mod Int
mod Lists
mod Perms
pub mod Run
mod Tests
unfoldable pub use Strings.*
pub use Addresses.*
pub use Int.*
pub use Lists.*
pub use Perms.*
pub use Tests.*
pub use Prim.Native.Nat.{ℕ, zero, suc, ◌+◌, ◌-◌, ◌*◌, ◌/◌, ◌%◌, ◌^◌, ◌≤◌, ◌<◌}
pub use mathlib.Core.Path.{◌≡◌, refl, sym, ap, ap₂, ◌∙◌, subst}
pub use mathlib.Core.Logic.{◌≢◌, ◌⊎◌, inl, inr}
pub use mathlib.Core.Bool.{Bool, true, false, not, ◌&&◌, ◌||◌}
pub use mathlib.Core.Option.{Option, none, some}
pub use mathlib.Core.List.{List, [], ◌∷◌, ◌++◌, append-nil, append_assoc}
pub use native.Mathlib.Omega.{arith}
