-- ===== src/Store/Secrets.antt =====
-- cloudmark/database.py: the secrets of tasks, which live in the Controller's memory only.
use Prim.Native.Char.{code}
use Prim.Native.String.{count}
use cloud_mark.Prelude.{
  ℕ, Bool, true, false, not, Option, none, some, List, [], ◌∷◌, String, str_eq, if◌then◌else◌, ◌&&◌,
  ◌||◌, leb, ltb, ◌==◌, length, any,
}
use cloud_mark.Python.{Result, ok, raise, value_error}
use cloud_mark.Store.Schema.{Secret}

-- dict.get, assignment and pop on `_ephemeral_task_secrets`.
unfoldable pub find_secret : String → List (String × Secret) → Option Secret
find_secret k [] = none
find_secret k ((j, s) ∷ rest) = if str_eq j k then some s else find_secret k rest

unfoldable pub remove_secret : String → List (String × Secret) → List (String × Secret)
remove_secret k [] = []
remove_secret k ((j, s) ∷ rest) =
    if str_eq j k then remove_secret k rest else (j, s) ∷ remove_secret k rest

unfoldable pub set_secret : String → Secret → List (String × Secret) → List (String × Secret)
unfolding remove_secret
set_secret k s secrets = (k, s) ∷ remove_secret k secrets

-- key.isidentifier(), for ASCII names.
identifier_start : ℕ → Bool
identifier_start c = (leb b'a' c && leb c b'z') || (leb b'A' c && leb c b'Z') || c == b'_'

identifier_rest : String → Bool
unfolding identifier_start
identifier_rest String.[] = true
identifier_rest (String.◌∷◌ c s) =
    (identifier_start (code c) || (leb b'0' (code c) && leb (code c) b'9')) && identifier_rest s

is_identifier : String → Bool
unfolding identifier_start identifier_rest
is_identifier String.[] = false
is_identifier (String.◌∷◌ c s) = identifier_start (code c) && identifier_rest s

-- A field within the bounded contract.
secret_field : String × String → Bool
unfolding is_identifier
secret_field (key, value) =
    is_identifier key && leb (count key) 64 && leb 16 (count value) && leb (count value) 512

-- The checks on `ephemeral_secret`.
unfoldable pub check_secret : Option Secret → Result (Unit {0})
unfolding secret_field
check_secret none = ok tt
check_secret (some s) =
    if length s == 0 || ltb 8 (length s)
    then raise (value_error "Ephemeral task secret must contain between one and eight fields.")
    else if any (λ f. not (secret_field f)) s
    then raise (value_error "Ephemeral task secret fields are outside the bounded contract.")
    else ok tt
