-- ===== src/Suitability/Statistics.antt =====
-- cloudmark/suitability.py: `_percentile` and `_stability`.
use cloud_mark.Prelude.{
  ℕ, zero, suc, ◌+◌, ◌*◌, ◌-◌, min, Option, none, some, List, [], ◌∷◌, if◌then◌else◌, ltb, leb,
  ◌==◌, length, Float, fraction, pos, pos_part, neg_part, float_lt, float_zero, float_add,
  float_sub, float_mul, float_div, float_abs, float_of_ℕ, float_one, truncate, nearest,
  round_quotient,
}

unfoldable pub insert_value : Float → List Float → List Float
insert_value x [] = x ∷ []
insert_value x (y ∷ ys) = if float_lt y x then y ∷ insert_value x ys else x ∷ y ∷ ys

-- sorted(values)
unfoldable pub sort_values : List Float → List Float
unfolding insert_value
sort_values [] = []
sort_values (x ∷ xs) = insert_value x (sort_values xs)

-- values[index]
unfoldable pub value_at : List Float → ℕ → Option Float
value_at [] n = none
value_at (x ∷ xs) zero = some x
value_at (x ∷ xs) (suc n) = value_at xs n

abbrev pub between : Option Float → Option Float → (weight : Float) → Option Float
between (some x) (some y) weight =
    some (float_add (float_mul x (float_sub float_one weight)) (float_mul y weight))
between _ _ weight = none

-- The values at both sides of the position; `none` for an IndexError.
unfoldable pub interpolate : List Float → (position : Float) → Option Float
unfolding value_at float_add float_mul float_sub float_of_ℕ truncate
interpolate ordered position =
    let lower = truncate position in
    let upper = min (lower + 1) (length ordered - 1) in
    between (value_at ordered lower) (value_at ordered upper)
      (float_sub position (float_of_ℕ lower))

unfoldable pub percentile : List Float → (share : Float) → Option Float
unfolding sort_values value_at interpolate float_mul float_of_ℕ
percentile values share =
    let ordered = sort_values values in
    if length ordered == 1
    then value_at ordered 0
    else interpolate ordered (float_mul (float_of_ℕ (length ordered - 1)) share)

pub data Stability : Type 0 where
  insufficient_sampling stable moderate variable : Stability

-- The numerator and the denominator of |x|.
magnitude : Float → ℕ × ℕ
magnitude (fraction n d) = (pos_part n + neg_part n, suc d)
magnitude _ = (0, 1)

-- The relative spread in hundredths of a percent, and its verdict.
unfoldable pub stability_of : ℕ → Option Float × Stability
stability_of hundredths = (
  some (fraction (pos hundredths) 99),
  (if leb hundredths 1000 then stable else if leb hundredths 2500 then moderate else variable),
)

-- _stability: round(spread * 100 / abs(median), 2) rounds the double to hundredths.
unfoldable pub stability : List Float → (median p10 p90 : Float) → Option Float × Stability
unfolding magnitude stability_of round_quotient float_abs float_sub float_mul float_div float_of_ℕ
    nearest
stability values median p10 p90 =
    let spread = float_abs (float_sub p90 p10) in
    if ltb (length values) 3
    then (none, insufficient_sampling)
    else if float_lt (float_abs median) (nearest 1 1000000000000)
    then (if (magnitude spread).0 == 0 then (some float_zero, stable) else (none, variable))
    else let (n, d) =
        magnitude (float_div (float_mul spread (float_of_ℕ 100)) (float_abs median)) in
      stability_of (round_quotient (n * 100) d)
