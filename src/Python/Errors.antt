-- ===== src/Python/Errors.antt =====
-- The exceptions that the modelled code raises, and the results of code that may raise.
use cloud_mark.Prelude.{Bool, true, false, Option, String, ◌≡◌, refl, ◌⊎◌, inl, inr}
use cloud_mark.Python.Values.{
  Fields, dict, null, bool, int, float, str, list, Value, dict, get_field,
}

pub data Exception : Type 0 where
  value_error distributed_error cost_error : (message : String) → Exception
  remote_error run_cancelled run_timed_out :
      (message : String) (partial_result : Option Value) → Exception
  attribute_error type_error key_error index_error integrity_error : Exception

-- Code that returns, or raises.
pub data Result {ℓ} (T : Type ℓ) : Type ℓ where
  raise : (exception : Exception) → Result T
  ok : (value : T) → Result T

-- if not test: raise e
abbrev pub guard : (test : Bool) (e : Exception) → Result (Unit {0})
guard false e = raise e
guard true e = ok tt

infixl 5 ◌>>=◌
-- What comes next runs on what was returned.
abbrev pub ◌>>=◌ {ℓ κ} :
    {S : Type ℓ} {T : Type κ} (first : Result S) (next : S → Result T) → Result T
raise e >>= next = raise e
ok value >>= next = next value

infixl 5 ◌>>◌
abbrev pub ◌>>◌ {ℓ} : {T : Type ℓ} (first : Result (Unit {0})) (next : Result T) → Result T
first >> next = first >>= λ done. next

-- A block that returns has returned from its first action.
pub >>=-eq-ok {ℓ κ} :
    {S : Type ℓ} {T : Type κ} {t : T} (first : Result S) (next : S → Result T)
    → (first >>= next) ≡ ok t
    → (s : S) × (first ≡ ok s) × (next s ≡ ok t)
>>=-eq-ok (raise e) next returned = cc
>>=-eq-ok (ok s) next returned = (s, refl, returned)

-- v.get(key): only a dictionary has the method.
unfoldable pub get : Value → String → Result Value
unfolding get_field
get (dict fs) k = ok (get_field k fs)
get _ k = raise attribute_error

pub Result-cases {ℓ} :
    {A : Type ℓ} (r : Result A) → ((a : A) × (r ≡ ok a)) ⊎ ((e : Exception) × (r ≡ raise e))
Result-cases (ok a) = inl (a, refl)
Result-cases (raise e) = inr (e, refl)

-- Only a dictionary answers `get`.
pub get-dict : (v : Value) (k : String) {x : Value} → get v k ≡ ok x → (fs : Fields) × (v ≡ dict fs)
unfolding get
get-dict (dict fs) k e = (fs, refl)
get-dict null k e = cc
get-dict (bool b) k e = cc
get-dict (int n) k e = cc
get-dict (float x) k e = cc
get-dict (str s) k e = cc
get-dict (list vs) k e = cc

pub ok_injective {ℓ} : {A : Type ℓ} {a b : A} → ok a ≡ ok b → a ≡ b
ok_injective e = cc

pub guard-passes {ℓ} :
    {B : Type ℓ} (test : Bool) (e : Exception) (k : Result B) {b : B}
    → (guard test e >> k) ≡ ok b
    → (test ≡ true) × (k ≡ ok b)
guard-passes true e k h = (refl, h)
guard-passes false e k h = let never : ⊥ = cc in absurd never
