-- ===== src/Prelude.antt =====
-- The names that the components share: library names passed on, Boolean tests, lists, `u64`,
-- integers and formatted text.
mod Tests
mod Lists
mod U64
mod Int
mod Division
pub mod Values
mod Equality
pub mod Entries
mod Sort
mod Queries
mod Sums
mod Text
mod Floats
pub use Tests.*
pub use Lists.*
pub use U64.*
pub use Int.*
pub use Floats.*
pub use Division.*
pub use Sort.*
pub use Queries.*
pub use Sums.*
pub use Text.*
pub use Equality.*
pub use Prim.Native.Nat.{ℕ, zero, suc, ◌+◌, ◌-◌, ◌*◌, ◌/◌, ◌%◌, ◌^◌, ◌≤◌, ◌<◌, min, max}
pub use Prim.Native.String.{String}
pub use text.Mathlib.Text.{◌==◌ as str_eq}
pub use text.Mathlib.TextEquality.{eq_iff}
pub use mathlib.Core.Path.{◌≡◌, refl, sym, ap, subst, ◌∙◌}
pub use mathlib.Core.Logic.{◌≢◌, ◌↔◌, ◌⊎◌, inl, inr}
pub use mathlib.Core.Bool.{Bool, true, false, not, ◌&&◌, ◌||◌}
pub use mathlib.Core.Option.{Option, none, some}
pub use mathlib.Core.List.{List, [], ◌∷◌, ◌++◌, map}
pub use native.Mathlib.Omega.{arith}
