-- ===== src/Python/Values.antt =====
-- The values that JSON documents decode to, and what Python's operators do on them.
use cloud_mark.Prelude.{
  ℕ, suc, ◌+◌, Bool, true, false, not, ◌&&◌, Option, none, some, String, ◌==◌, if◌then◌else◌,
  str_eq, ℤ, pos, eq_ℤ, Float, fraction, infinity, neg_infinity, float_zero, pos_part, neg_part,
  ◌*◌, str_eq_refl, str_eq_iff, ◌≡◌, refl, arith,
}

mutual
  pub data Value : Type 0 where
    null : Value
    bool : Bool → Value
    int : ℤ → Value
    float : Float → Value
    str : String → Value
    list : Items → Value
    dict : Fields → Value

  pub data Items : Type 0 where
    nil : Items
    cons : Value → Items → Items

  -- A dictionary's entries in insertion order, each key once.
  pub data Fields : Type 0 where
    end : Fields
    field : String → Value → Fields → Fields

-- dict.get(key), with `null` for None.
unfoldable pub get_field : String → Fields → Value
get_field k end = null
get_field k (field j v fs) = if str_eq j k then v else get_field k fs

unfoldable pub find_field : String → Fields → Option Value
find_field k end = none
find_field k (field j v fs) = if str_eq j k then some v else find_field k fs

abbrev pub count_fields : Fields → ℕ
count_fields end = 0
count_fields (field k v fs) = suc (count_fields fs)

is_zero_ℤ : ℤ → Bool
is_zero_ℤ n = eq_ℤ n (pos 0)

is_zero_float : Float → Bool
is_zero_float (fraction (pos n) d) = n == 0
is_zero_float _ = false

-- bool(v)
unfoldable pub truthy : Value → Bool
unfolding is_zero_ℤ is_zero_float
truthy null = false
truthy (bool b) = b
truthy (int n) = not (is_zero_ℤ n)
truthy (float x) = not (is_zero_float x)
truthy (str s) = not (str_eq s "")
truthy (list nil) = false
truthy (list (cons v vs)) = true
truthy (dict end) = false
truthy (dict (field k v fs)) = true

-- v or w
unfoldable pub or_else : Value → Value → Value
unfolding truthy
or_else v w = if truthy v then v else w

-- v is True
abbrev pub is_true : Value → Bool
is_true (bool b) = b
is_true _ = false

float_eq : Float → Float → Bool
float_eq (fraction a d) (fraction b e) =
    pos_part a * suc e + neg_part b * suc d == pos_part b * suc d + neg_part a * suc e
float_eq infinity infinity = true
float_eq neg_infinity neg_infinity = true
float_eq _ _ = false

-- A bool or an int among the numbers.
as_int : Value → Option ℤ
as_int (bool true) = some (pos 1)
as_int (bool false) = some (pos 0)
as_int (int n) = some n
as_int _ = none

as_float : Value → Option Float
unfolding as_int
as_float (float x) = some x
as_float (bool true) = some (fraction (pos 1) 0)
as_float (bool false) = some float_zero
as_float (int n) = some (fraction n 0)
as_float _ = none

eq_numbers : Option Float → Option Float → Bool
unfolding float_eq
eq_numbers (some x) (some y) = float_eq x y
eq_numbers _ _ = false

-- v == w: True equals 1, and dictionaries are equal whatever the order of their entries.
unfoldable mutual
  unfolding eq_numbers as_float find_field

  pub value_eq : Value → Value → Bool
  value_eq null w = elim w [ null ↦ true | _ ↦ false ]
  value_eq (str s) w = elim w [ str t ↦ str_eq s t | _ ↦ false ]
  value_eq (list vs) w = elim w [ list ws ↦ items_eq vs ws | _ ↦ false ]
  value_eq (dict fs) w = elim w [
    | dict gs ↦ count_fields fs == count_fields gs && fields_in fs gs
    | _ ↦ false
  ]
  value_eq (bool b) w = eq_numbers (as_float (bool b)) (as_float w)
  value_eq (int n) w = eq_numbers (as_float (int n)) (as_float w)
  value_eq (float x) w = eq_numbers (as_float (float x)) (as_float w)

  pub items_eq : Items → Items → Bool
  items_eq nil ws = elim ws [ nil ↦ true | _ ↦ false ]
  items_eq (cons v vs) ws = elim ws [ nil ↦ false | cons w ws' ↦ value_eq v w && items_eq vs ws' ]

  pub fields_in : Fields → Fields → Bool
  fields_in end gs = true
  fields_in (field k v fs) gs =
      elim (find_field k gs) [ none ↦ false | some w ↦ value_eq v w ] && fields_in fs gs

-- fields[key] = v
unfoldable pub set_field : String → Value → Fields → Fields
set_field k v end = field k v end
set_field k v (field j w fs) = if str_eq j k then field j v fs else field j w (set_field k v fs)

pub get_field-set_field :
    (k : String) (v : Value) (fs : Fields) → get_field k (set_field k v fs) ≡ v
unfolding get_field set_field
get_field-set_field k v end = rw (str_eq_refl k) refl
get_field-set_field k v (field j w fs) = ground (arith, get_field-set_field k v fs)

pub get_field-set_field_ne :
    (k i : String) (v : Value) (fs : Fields)
    → str_eq k i ≡ false
    → get_field i (set_field k v fs) ≡ get_field i fs
unfolding get_field set_field
get_field-set_field_ne k i v end ne = rw ne refl
get_field-set_field_ne k i v (field j w fs) ne =
    ground
      (arith, get_field-set_field_ne k i v fs ne, str_eq_iff j k, str_eq_iff k i, str_eq_iff j i)
