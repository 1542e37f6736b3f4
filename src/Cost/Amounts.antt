-- ===== src/Cost/Amounts.antt =====
-- cloudmark/cost.py: `_price_amount`. The digits are those of ASCII, and a decimal number is its digits before
-- and behind the point.
use Prim.Native.Char.{Char, code}
use cloud_mark.Prelude.{
  ℕ, Bool, true, false, not, ◌&&◌, ◌||◌, Option, none, some, List, [], ◌∷◌, ◌++◌, String,
  if◌then◌else◌, leb, ltb, length, ◌==◌,
}
use cloud_mark.Python.{Value, str, Result, raise, ok, cost_error, chars, text}

abbrev pub is_digit : Char → Bool
is_digit c = leb b'0' (code c) && leb (code c) b'9'

abbrev pub is_zero : Char → Bool
is_zero c = code c == b'0'

-- The digits that the text begins with, and the rest.
unfoldable pub span_digits : List Char → List Char × List Char
span_digits [] = ([], [])
span_digits (c ∷ cs) =
    let (digits, rest) = span_digits cs in if is_digit c then (c ∷ digits, rest) else ([], c ∷ cs)

-- A decimal number: the digits before and behind the point.
pub record Decimal : Type 0 where
  pub whole : List Char
  pub fraction_digits : List Char

abbrev pub bounded : (limit : ℕ) → List Char → Bool
bounded limit digits = ltb 0 (length digits) && leb (length digits) limit

unfoldable pub is_empty : List Char → Bool
is_empty [] = true
is_empty (c ∷ cs) = false

abbrev pub with_fraction : (whole : List Char) → List Char × List Char → Option Decimal
with_fraction whole (digits, rest) =
    if bounded 6 digits && is_empty rest
    then some (record { whole = whole; fraction_digits = digits })
    else none

unfoldable pub after_whole : (whole rest : List Char) → Option Decimal
unfolding span_digits is_empty
after_whole whole [] = some (record { whole = whole; fraction_digits = [] })
after_whole whole (c ∷ rest) =
    if code c == b'.' then with_fraction whole (span_digits rest) else none

-- COST_AMOUNT_PATTERN.fullmatch and Decimal(value)
unfoldable pub parse_amount : List Char → Option Decimal
unfolding span_digits after_whole
parse_amount cs =
    let (whole, rest) = span_digits cs in if bounded 12 whole then after_whole whole rest else none

unfoldable pub strip_zeros : List Char → List Char
strip_zeros [] = []
strip_zeros (c ∷ cs) = if is_zero c then strip_zeros cs else c ∷ cs

unfoldable pub strip_last_zeros : List Char → List Char
unfolding is_empty
strip_last_zeros [] = []
strip_last_zeros (c ∷ cs) =
    let rest = strip_last_zeros cs in if is_zero c && is_empty rest then [] else c ∷ rest

abbrev pub or_zero : List Char → List Char
or_zero [] = "0" ∷ []
or_zero (c ∷ cs) = c ∷ cs

-- amount.normalize()
unfoldable pub normalize : Decimal → Decimal
unfolding strip_zeros strip_last_zeros
normalize d = record {
  whole = or_zero (strip_zeros d.whole);
  fraction_digits = strip_last_zeros d.fraction_digits;
}

abbrev pub print_digits : (whole fraction_digits : List Char) → List Char
print_digits whole [] = whole
print_digits whole (c ∷ cs) = whole ++ "." ∷ c ∷ cs

-- format(amount, "f"), of a normalized amount. It has no zero or point at the end that could be stripped.
unfoldable pub print_amount : Decimal → List Char
print_amount d = print_digits d.whole d.fraction_digits

-- amount > 0
unfoldable pub is_positive : Decimal → Bool
unfolding strip_zeros is_empty strip_last_zeros
is_positive d =
    not (is_empty (strip_zeros d.whole)) || not (is_empty (strip_last_zeros d.fraction_digits))

unfoldable pub price_of_decimal : Option Decimal → Result String
unfolding is_positive normalize print_amount text
price_of_decimal none =
    raise
      (cost_error "amount must be a positive decimal string with at most six fractional digits.")
price_of_decimal (some d) =
    if is_positive d
    then ok (text (print_amount (normalize d)))
    else raise (cost_error "amount must be greater than zero.")

unfoldable pub price_amount : Value → Result String
unfolding parse_amount chars price_of_decimal
price_amount (str s) = price_of_decimal (parse_amount (chars s))
price_amount v =
    raise
      (cost_error "amount must be a positive decimal string with at most six fractional digits.")
