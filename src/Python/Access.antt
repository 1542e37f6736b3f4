-- ===== src/Python/Access.antt =====
-- How the program reads nested JSON values: chains of `get`, defaults, iteration, and type tests.
use cloud_mark.Prelude.{Bool, true, false, not, Option, none, some, List, [], ◌++◌, String}
use cloud_mark.Python.Values.{
  Value, Items, Fields, null, bool, str, list, dict, nil, cons, end, field, get_field, find_field,
  value_eq,
}
use cloud_mark.Python.Errors.{attribute_error, type_error, Result, raise, ok, ◌>>=◌}

-- isinstance(v, dict)
abbrev pub is_dict : Value → Bool
is_dict (dict fs) = true
is_dict _ = false

-- isinstance(v, bool)
abbrev pub is_bool : Value → Bool
is_bool (bool b) = true
is_bool _ = false

-- v is False
abbrev pub is_false : Value → Bool
is_false (bool b) = not b
is_false _ = false

-- v is None
abbrev pub is_null : Value → Bool
is_null null = true
is_null _ = false

-- v if isinstance(v, dict) else {}
abbrev pub dict_or_empty : Value → Fields
dict_or_empty (dict fs) = fs
dict_or_empty _ = end

-- An optional text column: None or a text.
abbrev pub optional_text : Option String → Value
optional_text none = null
optional_text (some s) = str s

-- v.get(key, default)
unfoldable pub get_or : Value → String → Value → Result Value
unfolding find_field
get_or (dict fs) k default = elim (find_field k fs) [ none ↦ ok default | some v ↦ ok v ]
get_or _ k default = raise attribute_error

characters : String → Items
characters String.[] = nil
characters (String.◌∷◌ c s) = cons (str (String.◌∷◌ c String.[])) (characters s)

keys : Fields → Items
keys end = nil
keys (field k v fs) = cons (str k) (keys fs)

-- The elements that `for … in v` goes through.
unfoldable pub iterate : Value → Result Items
unfolding characters keys
iterate (list vs) = ok vs
iterate (dict fs) = ok (keys fs)
iterate (str s) = ok (characters s)
iterate _ = raise type_error

-- The first element with a given name: next((v for v in vs if v.get("name") == name), None)
unfoldable pub first_named : String → Items → Result Value
unfolding get_field value_eq
first_named name nil = ok null
first_named name (cons (dict fs) vs) = elim (value_eq (get_field "name" fs) (str name)) [
  | true ↦ ok (dict fs)
  | false ↦ first_named name vs
]
first_named name (cons v vs) = raise attribute_error

-- One list out of what each element gives.
unfoldable pub for_each {ℓ} : {A : Type ℓ} → (Value → Result (List A)) → Items → Result (List A)
for_each step nil = ok []
for_each step (cons v vs) = do first ← step v; rest ← for_each step vs; ok (first ++ rest)
