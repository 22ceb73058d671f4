-- ===== src/Prelude.antt =====
-- The names that the other modules share: the libraries', passed on, and those of the children.
mod Tests
mod Lists
mod Text
mod Numbers
mod Paths
mod Splits
mod Sorts
pub use Tests.*
pub use Lists.*
pub use Text.*
unfoldable pub use Text.{text, same, starts_with, includes}
pub use Numbers.*
unfoldable pub use Numbers.{decimal, decimal_fuel, int_text, parse_int}
pub use Sorts.*
unfoldable pub use Sorts.{sort_by}
pub use Splits.*
pub use Paths.*
unfoldable pub use Paths.{path_of, segments}
pub use Prim.Native.Nat.{ℕ, zero, suc, ◌+◌, ◌-◌, ◌*◌, ◌/◌, ◌%◌, ◌^◌, ◌≤◌, ◌<◌, min, max}
pub use Prim.Native.String.{String}
pub use mathlib.Core.Path.{◌≡◌, refl, sym, ap, ◌∙◌, subst, fun_ext}
pub use mathlib.Core.Logic.{◌≢◌, ◌↔◌, ◌⊎◌, inl, inr}
pub use mathlib.Core.Bool.{Bool, true, false, ◌&&◌, ◌||◌, not}
pub use mathlib.Core.Option.{Option, none, some}
pub use mathlib.Core.List.{List, [], ◌∷◌, ◌++◌, map, append_assoc, append-nil}
pub use native.Mathlib.Omega.{arith}
