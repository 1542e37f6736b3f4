-- ===== src/Prelude/FloatOrder.antt =====
-- The order of the floats.
use Prim.Native.Nat.{ℕ, suc, ◌+◌, ◌*◌, ◌≤◌, ◌<◌}
use mathlib.Core.Path.{◌≡◌, refl}
use mathlib.Core.Bool.{true}
use native.Mathlib.Omega.{arith}
use native.Mathlib.Nat.{mul-le-mul_right, le_of_mul-le-mul_right}
use cloud_mark.Prelude.Int.{ℤ, pos_part, neg_part}
use cloud_mark.Prelude.Floats.{Float, fraction, nan, infinity, neg_infinity, float_le}

-- The comparison of two fractions, on their parts.
abbrev pub Below : (a b : ℤ) (d e : ℕ) → Type 0
Below a b d e = pos_part a * suc e + neg_part b * suc d ≤ pos_part b * suc d + neg_part a * suc e

pub float_le-Below :
    (a b : ℤ) (d e : ℕ) → float_le (fraction a d) (fraction b e) ≡ true → Below a b d e
float_le-Below a b d e h = ground arith

pub Below-float_le :
    (a b : ℤ) (d e : ℕ) → Below a b d e → float_le (fraction a d) (fraction b e) ≡ true
Below-float_le a b d e h = ground arith

cancel : (k m n : ℕ) → 0 < k → m * k ≤ n * k → m ≤ n
cancel k m n p h = le_of_mul-le-mul_right h p

Below-trans : (a b c : ℤ) (d e f : ℕ) → Below a b d e → Below b c e f → Below a c d f
Below-trans a b c d e f h k =
    cancel (suc e) _ _ (omega arith)
      (omega (arith, mul-le-mul_right (suc f) h, mul-le-mul_right (suc d) k))

any_below : (x y : Float) → float_le x y ≡ true → float_le x infinity ≡ true
any_below (fraction a d) y h = refl
any_below infinity y h = refl
any_below neg_infinity y h = refl
any_below nan y h = cc

pub float_le_trans :
    (x y z : Float) → float_le x y ≡ true → float_le y z ≡ true → float_le x z ≡ true
float_le_trans (fraction a d) (fraction b e) (fraction c f) h k =
    Below-float_le a c d f
      (Below-trans a b c d e f (float_le-Below a b d e h) (float_le-Below b c e f k))
float_le_trans x nan z h k = cc
float_le_trans nan y z h k = cc
float_le_trans x y nan h k = cc
float_le_trans x infinity infinity h k = h
float_le_trans x infinity (fraction c f) h k = cc
float_le_trans x infinity neg_infinity h k = cc
float_le_trans neg_infinity neg_infinity z h k = k
float_le_trans (fraction a d) neg_infinity z h k = cc
float_le_trans infinity neg_infinity z h k = cc
float_le_trans infinity (fraction b e) z h k = cc
float_le_trans neg_infinity (fraction b e) (fraction c f) h k = refl
float_le_trans x (fraction b e) infinity h k = any_below x (fraction b e) h
float_le_trans x (fraction b e) neg_infinity h k = cc
