-- ===== src/Prelude/Doubles.antt =====
-- The arithmetic of Python's floats: the exact result, rounded to the nearest double, a half to the even one.
use Prim.Native.Nat.{ℕ, zero, suc, ◌+◌, ◌*◌, ◌-◌, ◌/◌, ◌%◌}
use mathlib.Core.Bool.{true, false, ◌&&◌}
use cloud_mark.Prelude.Tests.{ltb, leb, ◌==◌, if◌then◌else◌}
use cloud_mark.Prelude.Int.{ℤ, pos, negsuc, pos_part, neg_part}
use cloud_mark.Prelude.Floats.{Float, fraction, nan, infinity, neg_infinity}

-- m - n
difference : ℕ → ℕ → ℤ
difference m n = if leb n m then pos (m - n) else negsuc (n - m - 1)

-- The quotient n / d to the nearest whole number, a half to the even one.
unfoldable pub round_quotient : ℕ → ℕ → ℕ
round_quotient n d =
    let q = n / d in
    let r = n % d in if ltb d (2 * r) then suc q else if ltb (2 * r) d then q else q + q % 2

-- Doubled, at most `steps` times, until p / q has 53 bits; and the number of doublings.
grow : (steps : ℕ) → (p q done : ℕ) → ℕ × ℕ
grow zero p q done = (p, done)
grow (suc steps) p q done = elim (leb (4503599627370496 * q) p) [
  | true ↦ (p, done)
  | false ↦ grow steps (2 * p) q (suc done)
]

-- The divisor doubled, at most `steps` times, until p / q has no more than 53 bits.
shrink : (steps : ℕ) → (p q done : ℕ) → ℕ × ℕ
shrink zero p q done = (q, done)
shrink (suc steps) p q done = elim (ltb p (9007199254740992 * q)) [
  | true ↦ (q, done)
  | false ↦ shrink steps p (2 * q) (suc done)
]

power : ℕ → ℕ
power zero = 1
power (suc n) = 2 * power n

-- The double nearest to p / q; `infinity` from 2 ^ 1024 on. The least positive one is 2 ^ -1074.
unfoldable pub nearest : (p q : ℕ) → Float
unfolding grow shrink power round_quotient
nearest p q = elim (p == 0) [
  | true ↦ fraction (pos 0) 0
  | false ↦
      let (scaled, up) = grow 1074 p q 0 in
      let (divisor, down) = shrink 971 scaled q 0 in
      let mantissa = round_quotient scaled divisor in
      if leb 971 down && leb 9007199254740992 mantissa
      then infinity
      else fraction (pos (mantissa * power down)) (power up - 1)
]

-- -x
unfoldable pub float_negate : Float → Float
unfolding difference
float_negate (fraction n d) = fraction (difference (neg_part n) (pos_part n)) d
float_negate nan = nan
float_negate infinity = neg_infinity
float_negate neg_infinity = infinity

unfoldable pub round_double : Float → Float
unfolding nearest float_negate
round_double (fraction (pos n) d) = nearest n (suc d)
round_double (fraction (negsuc n) d) = float_negate (nearest (suc n) (suc d))
round_double x = x

-- x + y
unfoldable pub float_add : Float → Float → Float
unfolding difference round_double
float_add (fraction a d) (fraction b e) = round_double (
    fraction
      (difference (pos_part a * suc e + pos_part b * suc d)
        (neg_part a * suc e + neg_part b * suc d))
      (suc d * suc e - 1))
float_add nan y = nan
float_add (fraction a d) y = y
float_add infinity nan = nan
float_add infinity neg_infinity = nan
float_add infinity y = infinity
float_add neg_infinity nan = nan
float_add neg_infinity infinity = nan
float_add neg_infinity y = neg_infinity

-- x - y
unfoldable pub float_sub : Float → Float → Float
unfolding float_add float_negate
float_sub x y = float_add x (float_negate y)

-- An infinite x times a finite number.
infinite_times : Float → ℤ → Float
unfolding float_negate
infinite_times x (pos zero) = nan
infinite_times x (pos (suc n)) = x
infinite_times x (negsuc n) = float_negate x

-- x * y
unfoldable pub float_mul : Float → Float → Float
unfolding difference round_double infinite_times float_negate
float_mul (fraction a d) (fraction b e) = round_double (
    fraction
      (difference (pos_part a * pos_part b + neg_part a * neg_part b)
        (pos_part a * neg_part b + neg_part a * pos_part b))
      (suc d * suc e - 1))
float_mul nan y = nan
float_mul x nan = nan
float_mul (fraction a d) y = infinite_times y a
float_mul x (fraction b e) = infinite_times x b
float_mul infinity y = y
float_mul neg_infinity y = float_negate y

-- float(n)
unfoldable pub float_of_ℕ : ℕ → Float
unfolding nearest
float_of_ℕ n = nearest n 1

-- int(x), of a finite x that is not negative.
unfoldable pub truncate : Float → ℕ
truncate (fraction n d) = pos_part n / suc d
truncate x = 0

-- abs(x)
unfoldable pub float_abs : Float → Float
float_abs (fraction n d) = fraction (pos (pos_part n + neg_part n)) d
float_abs nan = nan
float_abs _ = infinity

-- x / y, of a positive y: the quotient of two finite numbers is rounded.
unfoldable pub float_div : Float → Float → Float
unfolding round_double difference
float_div (fraction a d) (fraction b e) =
    round_double
      (fraction (difference (pos_part a * suc e) (neg_part a * suc e)) (pos_part b * suc d - 1))
float_div nan y = nan
float_div x nan = nan
float_div (fraction a d) y = fraction (pos 0) 0
float_div infinity (fraction b e) = infinity
float_div neg_infinity (fraction b e) = neg_infinity
float_div _ _ = nan
