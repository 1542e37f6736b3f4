-- ===== src/Prelude/Floats.antt =====
-- Python's floats. A finite one is the exact fraction that it stands for, so comparisons are exact;
-- the arithmetic of the statistics, rounded to 53 bits, is that of Doubles.
use Prim.Native.Nat.{ℕ, zero, suc, ◌+◌, ◌*◌}
use mathlib.Core.Path.{◌≡◌}
use mathlib.Core.Bool.{Bool, true, false, not}
use native.Mathlib.Omega.{arith}
use cloud_mark.Prelude.Tests.{ltb, if◌then◌else◌}
use cloud_mark.Prelude.Int.{ℤ, pos, negsuc, pos_part, neg_part}

-- `fraction n d` is n / (d + 1).
pub data Float : Type 0 where
  fraction : ℤ → ℕ → Float
  nan infinity neg_infinity : Float

-- Below, by cross multiplication. Every comparison with NaN is false.
abbrev pub float_lt : Float → Float → Bool
float_lt (fraction a d) (fraction b e) =
    ltb (pos_part a * suc e + neg_part b * suc d) (pos_part b * suc d + neg_part a * suc e)
float_lt (fraction a d) infinity = true
float_lt (fraction a d) _ = false
float_lt neg_infinity (fraction b e) = true
float_lt neg_infinity infinity = true
float_lt neg_infinity _ = false
float_lt _ _ = false

abbrev pub float_le : Float → Float → Bool
float_le nan _ = false
float_le _ nan = false
float_le a b = not (float_lt b a)

abbrev pub float_zero : Float
float_zero = fraction (pos 0) 0

abbrev pub float_one : Float
float_one = fraction (pos 1) 0

-- max(0.0, x): Python keeps the first argument unless a later one is greater.
abbrev max_zero : Float → Float
max_zero x = if float_lt float_zero x then x else float_zero

-- min(1.0, x)
abbrev pub min_one : Float → Float
min_one x = if float_lt x float_one then x else float_one

-- min(1.0, max(0.0, x))
unfoldable pub clamp_unit : Float → Float
clamp_unit x = min_one (max_zero x)

-- A number of the unit interval.
abbrev pub IsUnitInterval : Float → Type 0
IsUnitInterval x = (float_le float_zero x ≡ true) × (float_le x float_one ≡ true)

-- Whatever is sent, NaN and the infinities included, what is stored lies in the unit interval.
pub clamp_unit-IsUnitInterval : (x : Float) → IsUnitInterval (clamp_unit x)
unfolding clamp_unit
clamp_unit-IsUnitInterval (fraction (pos n) d) = ground arith
clamp_unit-IsUnitInterval _ = ground arith

-- A / b for a positive divisor.
abbrev pub div_ℕ : ℕ → ℕ → Float
div_ℕ a zero = nan
div_ℕ a (suc d) = fraction (pos a) d

-- math.isfinite(x)
abbrev pub is_finite : Float → Bool
is_finite (fraction n d) = true
is_finite _ = false

-- x == y
abbrev pub float_same : Float → Float → Bool
float_same x y = if float_le x y then float_le y x else false

-- max(x, y): the first one, unless the second is greater.
abbrev pub float_max : Float → Float → Float
float_max x y = if float_lt x y then y else x

-- min(x, y): the first one, unless the second is smaller.
abbrev pub float_min : Float → Float → Float
float_min x y = if float_lt y x then y else x

scale_ℤ : ℕ → ℤ → ℤ
scale_ℤ k (pos n) = pos (n * suc k)
scale_ℤ k (negsuc n) = negsuc (n * suc k + k)

-- x * (k + 1)
unfoldable pub float_scale : ℕ → Float → Float
unfolding scale_ℤ
float_scale k (fraction n d) = fraction (scale_ℤ k n) d
float_scale k x = x
