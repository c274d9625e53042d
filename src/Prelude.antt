-- ===== src/Prelude.antt =====
-- The names that every module shares: the libraries', passed on, and those of the children.
mod Tests
mod Lists
mod Sorting
mod Int
mod Text
pub mod Values
mod Outcome
mod Time
pub use Tests.*
pub use Lists.*
pub use Sorting.*
pub use Int.*
pub use Text.*
pub use Outcome.*
pub use Time.*
pub use Values.{Json, Items, Fields}
pub use Prim.Native.Nat.{ℕ, zero, suc, ◌+◌, ◌-◌, ◌*◌, ◌/◌, ◌%◌, ◌^◌, ◌≤◌, ◌<◌, min, max}
pub use Prim.Native.String.{String}
pub use mathlib.Core.Path.{◌≡◌, refl, sym, ◌∙◌, ap, subst}
pub use mathlib.Core.Logic.{◌≢◌, ◌↔◌, ◌⊎◌, inl, inr}
pub use mathlib.Core.Bool.{Bool, true, false, not, ◌&&◌, ◌||◌}
pub use mathlib.Core.Option.{Option, none, some}
pub use mathlib.Core.List.{List, [], ◌∷◌, ◌++◌, map, append-nil, append_assoc}
pub use native.Mathlib.Omega.{arith}
pub use text.Mathlib.Text.{◌==◌ as str_eq}
pub use text.Mathlib.TextEquality.{eq_iff}
