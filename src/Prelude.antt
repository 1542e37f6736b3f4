-- ===== src/Prelude.antt =====
-- The names that the other modules share: the libraries', passed on, and those of the children.
mod Tests
mod Table
mod Int
mod Floats
mod FloatOrder
mod Doubles
mod Keys
pub use Tests.*
pub use Table.*
pub use Int.*
pub use Floats.*
pub use Keys.*
unfoldable pub use Tests.{str_eq}
unfoldable pub use Table.{select, select_one, update, row_count}
unfoldable pub use Floats.{clamp_unit, float_scale}
pub use FloatOrder.*
pub use Doubles.*
unfoldable pub use Doubles.{
  float_add, float_sub, float_mul, float_div, float_abs, float_negate, round_double, nearest,
  truncate, float_of_ℕ, round_quotient,
}
pub use Prim.Native.Nat.{ℕ, zero, suc, ◌+◌, ◌-◌, ◌*◌, ◌/◌, ◌%◌, ◌≤◌, ◌<◌, min, max}
pub use Prim.Native.String.{String}
pub use mathlib.Core.Path.{◌≡◌, refl, sym, ap, subst, ◌∙◌}
pub use mathlib.Core.Logic.{◌≢◌, ◌↔◌, ◌⊎◌, inl, inr}
pub use mathlib.Core.Bool.{Bool, true, false, not, ◌&&◌, ◌||◌}
pub use mathlib.Core.Option.{Option, none, some}
pub use mathlib.Core.List.{List, [], ◌∷◌, ◌++◌, map}
pub use native.Mathlib.Omega.{arith}
