-- ===== src/Prelude.antt =====
-- The names that the other modules share: the libraries' names, passed on, and those of
-- the children: the Boolean tests, lists over the native numbers, and hash maps and hash sets.
mod Tests
mod Lists
mod Maps
mod Strings
mod Texts
pub mod Int
pub mod Equality
pub use Tests.*
pub use Lists.*
unfoldable pub use Maps.*
pub use Strings.*
unfoldable pub use Texts.*
pub use Prim.Native.String.{String}
pub use Prim.Native.Nat.{ℕ, zero, suc, ◌+◌, ◌-◌, ◌*◌, ◌/◌, ◌%◌, ◌^◌, ◌≤◌, ◌<◌, min, max}
pub use mathlib.Core.Path.{◌≡◌, refl, sym, ap, ◌∙◌, subst}
pub use mathlib.Core.Logic.{◌≢◌, ◌↔◌, ◌⊎◌, inl, inr}
pub use mathlib.Core.Bool.{Bool, true, false, not, ◌&&◌, ◌||◌}
pub use mathlib.Core.Option.{Option, none, some, some-injective}
pub use mathlib.Core.List.{List, [], ◌∷◌, ◌++◌, map}
pub use native.Mathlib.Omega.{arith}
