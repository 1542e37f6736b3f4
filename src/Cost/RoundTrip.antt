-- ===== src/Cost/RoundTrip.antt =====
-- cloudmark/cost.py: a price that `_price_amount` returned is read back as it stands.
use Prim.Native.Char.{Char, code}
use cloud_mark.Prelude.{
  ◌≤◌, ◌<◌, true, false, ◌&&◌, Option, none, some, List, [], ◌∷◌, ◌++◌, String, length, ◌==◌, ◌≡◌,
  refl, subst, ap, All, arith, inl, inr, Bool-cases, some_injective,
}
use cloud_mark.Python.{
  bool, int, float, list, dict, null, Value, str, ok, ok_injective, chars, text, chars-text,
}
use cloud_mark.Cost.Amounts.{
  print_digits, price_of_decimal, is_digit, is_zero, span_digits, Decimal, bounded, with_fraction,
  is_empty, after_whole, parse_amount, strip_zeros, strip_last_zeros, or_zero, normalize,
  print_amount, is_positive, price_amount,
}

abbrev Digits : List Char → Type 0
Digits cs = All (λ c. is_digit c ≡ true) cs

-- What a read number has: 1 to 12 digits before the point and at most 6 behind it.
record IsRead (d : Decimal) : Type 0 where
  whole_digits : Digits d.whole
  some_whole : 0 < length d.whole
  whole_bound : length d.whole ≤ 12
  fraction_is_digits : Digits d.fraction_digits
  fraction_bound : length d.fraction_digits ≤ 6

span_digits-Digits : (cs : List Char) → Digits (span_digits cs).0
unfolding span_digits
span_digits-Digits [] = tt
span_digits-Digits (c ∷ cs) = elim (Bool-cases (is_digit c)) [
  | inl digit ↦ rw digit (digit, span_digits-Digits cs)
  | inr other ↦ rw other tt
]

-- The text behind the digits is empty or begins with another character.
abbrev Stops : List Char → Type 0
Stops [] = Unit
Stops (c ∷ cs) = is_digit c ≡ false

span_digits-append :
    (ds rest : List Char) → Digits ds → Stops rest → span_digits (ds ++ rest) ≡ (ds, rest)
unfolding span_digits
span_digits-append [] [] w stop = refl
span_digits-append [] (c ∷ cs) w stop = rw stop refl
span_digits-append (d ∷ ds) rest (w, ws) stop = rw (w, span_digits-append ds rest ws stop) refl

span_digits-all : (ds : List Char) → Digits ds → span_digits ds ≡ (ds, [])
unfolding span_digits
span_digits-all [] w = refl
span_digits-all (d ∷ ds) (w, ws) = rw (w, span_digits-all ds ws) refl

append_nil : (cs : List Char) → cs ++ [] ≡ cs
append_nil [] = refl
append_nil (c ∷ cs) = ap (c ∷◌) (append_nil cs)

parse_amount-print_digits :
    (whole fraction_digits : List Char)
    → IsRead (record { whole = whole; fraction_digits = fraction_digits })
    → parse_amount (print_digits whole fraction_digits)
      ≡ some (record { whole = whole; fraction_digits = fraction_digits })
unfolding parse_amount after_whole is_empty
parse_amount-print_digits whole [] w =
    let fits : bounded 12 whole ≡ true = ground (arith, w.some_whole, w.whole_bound) in
    rw (span_digits-all whole w.whole_digits, fits) refl
parse_amount-print_digits whole (c ∷ cs) w =
    let fits : bounded 12 whole ≡ true = ground (arith, w.some_whole, w.whole_bound) in
    let few : bounded 6 (c ∷ cs) ≡ true = ground (arith, w.fraction_bound) in
    rw (span_digits-append whole ("." ∷ c ∷ cs) w.whole_digits refl, fits)
      (rw (span_digits-all (c ∷ cs) w.fraction_is_digits, few) refl)

strip_zeros-Digits : (cs : List Char) → Digits cs → Digits (strip_zeros cs)
unfolding strip_zeros
strip_zeros-Digits [] w = tt
strip_zeros-Digits (c ∷ cs) (w, ws) = elim (Bool-cases (is_zero c)) [
  | inl zero ↦ rw zero (strip_zeros-Digits cs ws)
  | inr other ↦ rw other (w, ws)
]

length-strip_zeros-le : (cs : List Char) → length (strip_zeros cs) ≤ length cs
unfolding strip_zeros
length-strip_zeros-le [] = omega arith
length-strip_zeros-le (c ∷ cs) = ground (arith, length-strip_zeros-le cs)

strip_last_zeros-Digits : (cs : List Char) → Digits cs → Digits (strip_last_zeros cs)
unfolding strip_last_zeros
strip_last_zeros-Digits [] w = tt
strip_last_zeros-Digits (c ∷ cs) (w, ws) =
    elim (Bool-cases (is_zero c && is_empty (strip_last_zeros cs))) [
      | inl dropped ↦ rw dropped tt
      | inr kept ↦ rw kept (w, strip_last_zeros-Digits cs ws)
    ]

length-strip_last_zeros-le : (cs : List Char) → length (strip_last_zeros cs) ≤ length cs
unfolding strip_last_zeros
length-strip_last_zeros-le [] = omega arith
length-strip_last_zeros-le (c ∷ cs) = ground (arith, length-strip_last_zeros-le cs)

strip_last_zeros_idem :
    (cs : List Char) → strip_last_zeros (strip_last_zeros cs) ≡ strip_last_zeros cs
unfolding strip_last_zeros
strip_last_zeros_idem [] = refl
strip_last_zeros_idem (c ∷ cs) = elim (Bool-cases (is_zero c && is_empty (strip_last_zeros cs))) [
  | inl dropped ↦ rw dropped refl
  | inr kept ↦ rw kept (rw (strip_last_zeros_idem cs, kept) refl)
]

read_fraction :
    (whole : List Char) (rest : List Char) (d : Decimal)
    → with_fraction whole (span_digits rest) ≡ some d
    → (d.whole ≡ whole) × (Digits d.fraction_digits × (length d.fraction_digits ≤ 6))
unfolding is_empty
read_fraction whole rest d e =
    elim (Bool-cases (bounded 6 (span_digits rest).0 && is_empty (span_digits rest).1)) [
      | inl fits ↦
          let same : some (record { whole = whole; fraction_digits = (span_digits rest).0 })
              ≡ some d =
            ground (arith, fits) in
          subst {A = Decimal}
            (λ z. (z.whole ≡ whole) × (Digits z.fraction_digits × (length z.fraction_digits ≤ 6)))
            (some_injective same) (refl, (span_digits-Digits rest, ground (arith, fits)))
      | inr never ↦ let no : ⊥ = ground (arith, never) in absurd no
    ]

read_rest :
    (whole rest : List Char) (d : Decimal)
    → after_whole whole rest ≡ some d
    → (d.whole ≡ whole) × (Digits d.fraction_digits × (length d.fraction_digits ≤ 6))
unfolding after_whole
read_rest whole [] d e =
    subst {A = Decimal}
      (λ z. (z.whole ≡ whole) × (Digits z.fraction_digits × (length z.fraction_digits ≤ 6)))
      (some_injective e) (refl, (tt, omega arith))
read_rest whole (c ∷ rest) d e = elim (Bool-cases (code c == b'.')) [
  | inl point ↦ read_fraction whole rest d (ground (arith, point))
  | inr other ↦ let no : ⊥ = ground (arith, other) in absurd no
]

parse_amount-IsRead : (cs : List Char) (d : Decimal) → parse_amount cs ≡ some d → IsRead d
unfolding parse_amount
parse_amount-IsRead cs d e =
    let whole = (span_digits cs).0 in
    elim (Bool-cases (bounded 12 whole)) [
      | inl fits ↦
          let rest : after_whole whole (span_digits cs).1 ≡ some d = ground (arith, fits) in
          let (same, (digits, bound)) = read_rest whole (span_digits cs).1 d rest in
          record {
            whole_digits = rw same (span_digits-Digits cs);
            some_whole = rw same (ground (arith, fits));
            whole_bound = rw same (ground (arith, fits));
            fraction_is_digits = digits;
            fraction_bound = bound;
          }
      | inr never ↦ let no : ⊥ = ground (arith, never) in absurd no
    ]

or_zero-Digits : (cs : List Char) → Digits cs → Digits (or_zero cs)
or_zero-Digits [] w = (refl, tt)
or_zero-Digits (c ∷ cs) w = w

length-or_zero :
    (cs : List Char) → length cs ≤ 12 → (0 < length (or_zero cs)) × (length (or_zero cs) ≤ 12)
length-or_zero [] h = (omega arith, omega arith)
length-or_zero (c ∷ cs) h = (omega arith, h)

normalize-IsRead : (d : Decimal) → IsRead d → IsRead (normalize d)
unfolding normalize
normalize-IsRead d w =
    let (some_digits, few) =
      length-or_zero (strip_zeros d.whole)
        (omega (arith, length-strip_zeros-le d.whole, w.whole_bound)) in
    record {
      whole_digits =
          or_zero-Digits (strip_zeros d.whole) (strip_zeros-Digits d.whole w.whole_digits);
      some_whole = some_digits;
      whole_bound = few;
      fraction_is_digits = strip_last_zeros-Digits d.fraction_digits w.fraction_is_digits;
      fraction_bound =
          omega (arith, length-strip_last_zeros-le d.fraction_digits, w.fraction_bound);
    }

strip_zeros_idem : (cs : List Char) → strip_zeros (or_zero (strip_zeros cs)) ≡ strip_zeros cs
unfolding strip_zeros
strip_zeros_idem [] = refl
strip_zeros_idem (c ∷ cs) = elim (Bool-cases (is_zero c)) [
  | inl zero ↦ rw zero (strip_zeros_idem cs)
  | inr other ↦ rw other (rw other refl)
]

normalize_idem : (d : Decimal) → normalize (normalize d) ≡ normalize d
unfolding normalize
normalize_idem d = rw (strip_zeros_idem d.whole, strip_last_zeros_idem d.fraction_digits) refl

is_positive-normalize : (d : Decimal) → is_positive (normalize d) ≡ is_positive d
unfolding is_positive normalize
is_positive-normalize d =
    rw (strip_zeros_idem d.whole, strip_last_zeros_idem d.fraction_digits) refl

-- The text of a normalized positive number is read as that number.
price_amount-of_normal :
    (d : Decimal)
    → IsRead d
    → is_positive d ≡ true
    → price_amount (str (text (print_amount (normalize d))))
      ≡ ok (text (print_amount (normalize d)))
unfolding price_amount print_amount price_of_decimal
price_amount-of_normal d w positive =
    rw
      (
        chars-text (print_amount (normalize d)),
        parse_amount-print_digits (normalize d).whole (normalize d).fraction_digits
            (normalize-IsRead d w),
        is_positive-normalize d,
        positive,
      )
      (ap (λ z. ok (text (print_amount z))) (normalize_idem d))

price_of_decimal_idem :
    (o : Option Decimal) (amount : String)
    → ((d : Decimal) → o ≡ some d → IsRead d)
    → price_of_decimal o ≡ ok amount
    → price_amount (str amount) ≡ ok amount
unfolding price_of_decimal
price_of_decimal_idem none amount read e = let no : ⊥ = cc in absurd no
price_of_decimal_idem (some d) amount read e = elim (Bool-cases (is_positive d)) [
  | inl positive ↦
      let same : ok (text (print_amount (normalize d))) ≡ ok amount = ground (arith, positive) in
      subst {A = String} (λ z. price_amount (str z) ≡ ok z) (ok_injective same)
        (price_amount-of_normal d (read d refl) positive)
  | inr zero ↦ let no : ⊥ = ground (arith, zero) in absurd no
]

-- Reading a price is a round trip: the text that `_price_amount` returns for a price is a price, and it is
-- returned unchanged when it is read again, as the export demands.
pub price_amount_idem :
    (v : Value) (amount : String)
    → price_amount v ≡ ok amount
    → price_amount (str amount) ≡ ok amount
unfolding price_amount
price_amount_idem (str s) amount e =
    price_of_decimal_idem (parse_amount (chars s)) amount (parse_amount-IsRead (chars s)) e
price_amount_idem null amount e = let no : ⊥ = cc in absurd no
price_amount_idem (bool b) amount e = let no : ⊥ = cc in absurd no
price_amount_idem (int n) amount e = let no : ⊥ = cc in absurd no
price_amount_idem (float x) amount e = let no : ⊥ = cc in absurd no
price_amount_idem (list vs) amount e = let no : ⊥ = cc in absurd no
price_amount_idem (dict fs) amount e = let no : ⊥ = cc in absurd no
