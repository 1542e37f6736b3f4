-- ===== src/Cost/Exporting.antt =====
-- cloudmark/cost.py: every observation that is built can be exported.
use cloud_mark.Prelude.{
  either, ℕ, Bool, true, false, [], ◌∷◌, String, str_eq, str_eq_refl, str_eq_iff, length, ◌==◌, ◌≡◌,
  refl, sym, subst, inl, inr, Bool-cases,
}
use cloud_mark.Python.{
  Exception, Value, Fields, str, dict, get_field, or_else, Result, ok, ok_injective, ◌>>=◌, guard,
  >>=-eq-ok, Platform, text_of, truthy, value_eq,
}
use cloud_mark.Campaigns.Contract.{text_or}
use cloud_mark.Suitability.Runs.{is_one_of}
use cloud_mark.Cost.Amounts.{price_amount}
use cloud_mark.Cost.RoundTrip.{price_amount_idem}
use cloud_mark.Cost.Parts.{
  target_names, identity_fields, is_absent, observed_at, source_reference, target_identity,
}
use cloud_mark.Cost.Observation.{
  unknown_fields, missing_fields, source_word_of, billing_units, commitments, source_types,
  is_currency, is_flag_or_null, observation_fields, assemble, build_cost_observation, currency_of,
  word_of,
}
use cloud_mark.Cost.Export.{check_contract, check_observation, in_words}
use cloud_mark.Cost.Texts.{source_reference_idem}

text_or-str : (py : Platform) (s : String) → text_or py "" (str s) ≡ s
unfolding text_of or_else truthy
text_or-str py s = elim (Bool-cases (str_eq s "")) [
  | inl nothing ↦ rw nothing (sym ((str_eq_iff s "").0 nothing))
  | inr something ↦ rw something refl
]

-- The parts of an observation that `build_cost_observation` has tested.
observation_fields-IsExportable :
    (py : Platform) (observation_id created_at observed source_word : String) (target : Fields)
    (amount currency billing_unit commitment : String) (tax_included : Value)
    (source_type reference : String)
    → is_one_of ("controller-receipt-time" ∷ "operator-supplied" ∷ []) source_word ≡ true
    → truthy (dict target) ≡ true
    → price_amount (str amount) ≡ ok amount
    → is_currency currency ≡ true
    → is_one_of billing_units billing_unit ≡ true
    → is_one_of commitments commitment ≡ true
    → is_flag_or_null tax_included ≡ true
    → is_one_of source_types source_type ≡ true
    → source_reference py source_type (str reference) ≡ ok reference
    → check_observation py (
        observation_fields observation_id created_at observed source_word target amount currency
          billing_unit commitment tax_included source_type reference)
      ≡ ok tt
unfolding check_observation check_contract observation_fields get_field truthy value_eq str_eq
    text_of in_words
observation_fields-IsExportable py observation_id created_at observed source_word target amount
      currency billing_unit commitment tax_included source_type reference word some_target price
      money unit term flag kind source =
    rw
      (
        some_target,
        word,
        price,
        str_eq_refl amount,
        text_or-str py currency,
        money,
        unit,
        term,
        flag,
        kind,
        source,
        str_eq_refl reference,
      )
      refl

-- What is returned behind a test is returned because the test holds.
past_guard {ℓ} :
    {A : Type ℓ} (test : Bool) (x : Exception) (next : Unit {0} → Result A) {a : A}
    → (guard test x >>= next) ≡ ok a
    → (test ≡ true) × (next tt ≡ ok a)
past_guard true x next e = (refl, e)
past_guard false x next e = let no : ⊥ = cc in absurd no

target_identity-truthy :
    (target_id : String) (system target : Fields)
    → target_identity target_id system ≡ ok target
    → truthy (dict target) ≡ true
unfolding target_identity truthy identity_fields
target_identity-truthy target_id system target e =
    let (names, named, last) = >>=-eq-ok (target_names target_id _ _ _) _ e in
    subst {A = Fields} (λ z. truthy (dict z) ≡ true) (ok_injective last) refl

source_word_of-known :
    (v : Value)
    → is_one_of ("controller-receipt-time" ∷ "operator-supplied" ∷ []) (source_word_of v) ≡ true
unfolding str_eq
source_word_of-known v =
    either (λ z. is_one_of ("controller-receipt-time" ∷ "operator-supplied" ∷ []) z ≡ true)
      (is_absent v) refl refl

assemble-IsExportable :
    (py : Platform) (observation_id : String) (request : Fields) (target_id : String)
    (system : Fields) (now : ℕ) (currency billing_unit commitment source_type : String)
    (observation : Fields)
    → is_currency currency ≡ true
    → is_one_of billing_units billing_unit ≡ true
    → is_one_of commitments commitment ≡ true
    → is_flag_or_null (get_field "tax_included" request) ≡ true
    → is_one_of source_types source_type ≡ true
    → assemble py observation_id request target_id system now currency billing_unit commitment
        source_type
      ≡ ok observation
    → check_observation py observation ≡ ok tt
unfolding assemble
assemble-IsExportable py observation_id request target_id system now currency billing_unit
      commitment source_type observation money unit term flag kind e =
    let (observed, r1, e1) = >>=-eq-ok (observed_at py (get_field "observed_at" request) now) _ e in
    let (target, r2, e2) = >>=-eq-ok (target_identity target_id system) _ e1 in
    let (amount, r3, e3) = >>=-eq-ok (price_amount (get_field "amount" request)) _ e2 in
    let (reference, r4, e4) =
      >>=-eq-ok (source_reference py source_type (get_field "source_reference" request)) _ e3 in
    subst {A = Fields} (λ z. check_observation py z ≡ ok tt) (ok_injective e4)
      (observation_fields-IsExportable py observation_id (py.iso now) observed
        (source_word_of (get_field "observed_at" request)) target amount currency billing_unit
        commitment (get_field "tax_included" request) source_type reference
        (source_word_of-known (get_field "observed_at" request))
        (target_identity-truthy target_id system target r2)
        (price_amount_idem (get_field "amount" request) amount r3) money unit term flag kind
        (source_reference_idem py source_type (get_field "source_reference" request) reference r4))

-- Building and exporting fit together: every observation that `build_cost_observation` returns passes all the
-- tests that the export makes on it, its price, currency, words, source reference and policy included.
pub build_cost_observation-IsExportable :
    (py : Platform) (observation_id : String) (request : Fields) (target_id : String)
    (system : Fields) (now : ℕ) (observation : Fields)
    → build_cost_observation py observation_id request target_id system now ≡ ok observation
    → check_observation py observation ≡ ok tt
unfolding build_cost_observation
build_cost_observation-IsExportable py observation_id request target_id system now observation e =
    let (known, e1) = past_guard (length (unknown_fields request) == 0) _ _ e in
    let (complete, e2) = past_guard (length (missing_fields request) == 0) _ _ e1 in
    let (money, e3) = past_guard (is_currency (currency_of py request)) _ _ e2 in
    let (unit, e4) =
      past_guard (is_one_of billing_units (word_of py "" request "billing_unit")) _ _ e3 in
    let (term, e5) =
      past_guard (is_one_of commitments (word_of py "unknown" request "commitment")) _ _ e4 in
    let (kind, e6) =
      past_guard (is_one_of source_types (word_of py "" request "source_type")) _ _ e5 in
    let (flag, e7) = past_guard (is_flag_or_null (get_field "tax_included" request)) _ _ e6 in
    assemble-IsExportable py observation_id request target_id system now (currency_of py request)
      (word_of py "" request "billing_unit") (word_of py "unknown" request "commitment")
      (word_of py "" request "source_type") observation money unit term flag kind e7
