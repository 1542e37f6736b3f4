-- ===== src/Cost/Observation.antt =====
-- cloudmark/cost.py: `build_cost_observation`. The Controller's time is an instant of UTC.
use Prim.Native.Char.{Char, code}
use Prim.Native.String.{◌++◌ as ◌++ₛ◌}
use cloud_mark.Prelude.{
  ℕ, Bool, true, false, not, ◌&&◌, ◌||◌, List, [], ◌∷◌, String, if◌then◌else◌, leb, length, ◌==◌,
  select,
}
use cloud_mark.Python.{
  Value, Fields, bool, str, dict, end, field, get_field, or_else, is_bool, is_null, Result, ok,
  ◌>>=◌, ◌>>◌, guard, cost_error, Platform, text_of, strip, upper, chars,
}
use cloud_mark.Campaigns.Contract.{text_or}
use cloud_mark.Suitability.Runs.{is_one_of}
use cloud_mark.Suitability.Verdict.{sorted_texts}
use cloud_mark.Cost.Amounts.{price_amount}
use cloud_mark.Cost.Parts.{is_absent, observed_at, source_reference, target_identity}

abbrev pub cost_observation_version : String
cost_observation_version = "cost-observation-v1"

abbrev pub billing_units : List String
billing_units = "hour" ∷ "month" ∷ "year" ∷ "one-time" ∷ []

abbrev pub commitments : List String
commitments = "on-demand" ∷ "spot" ∷ "reserved" ∷ "contract" ∷ "unknown" ∷ []

abbrev pub source_types : List String
source_types = "provider-public-url" ∷ "operator-reference" ∷ []

abbrev allowed_fields : List String
allowed_fields =
    "target_id" ∷ "amount" ∷ "currency" ∷ "billing_unit" ∷ "commitment" ∷ "tax_included"
    ∷ "observed_at" ∷ "source_type" ∷ "source_reference" ∷ []

abbrev required_fields : List String
required_fields =
    "amount" ∷ "currency" ∷ "billing_unit" ∷ "commitment" ∷ "tax_included" ∷ "source_type"
    ∷ "source_reference" ∷ []

keys_of : Fields → List String
keys_of end = []
keys_of (field k v fs) = k ∷ keys_of fs

join_names : List String → String
join_names [] = ""
join_names (s ∷ []) = s
join_names (s ∷ t ∷ rest) = s ++ₛ ", " ++ₛ join_names (t ∷ rest)

abbrev is_capital : Char → Bool
is_capital c = leb b'A' (code c) && leb (code c) b'Z'

three_capitals : List Char → Bool
three_capitals (a ∷ b ∷ c ∷ []) = is_capital a && is_capital b && is_capital c
three_capitals _ = false

-- COST_CURRENCY_PATTERN.fullmatch
unfoldable pub is_currency : String → Bool
unfolding three_capitals chars
is_currency s = three_capitals (chars s)

unfoldable pub unknown_fields : Fields → List String
unfolding select sorted_texts keys_of
unknown_fields request =
    sorted_texts (select (λ k. not (is_one_of allowed_fields k)) (keys_of request))

unfoldable pub missing_fields : Fields → List String
unfolding select sorted_texts keys_of
missing_fields request =
    sorted_texts (select (λ k. not (is_one_of (keys_of request) k)) required_fields)

-- tax_included is True, False or None.
abbrev pub is_flag_or_null : Value → Bool
is_flag_or_null v = is_null v || is_bool v

-- The parts of an observation, once they are validated.
unfoldable pub observation_fields :
    (observation_id created_at observed source_word : String)
    → (target : Fields) → (amount currency billing_unit commitment : String)
    → (tax_included : Value) → (source_type reference : String) → Fields
observation_fields observation_id created_at observed source_word target amount currency
      billing_unit commitment tax_included source_type reference =
    field "id" (str observation_id) (
      field "version" (str cost_observation_version) (
        field "created_at" (str created_at) (
          field "observed_at" (str observed) (
            field "observed_at_source" (str source_word) (
              field "target" (dict target) (
                field "price"
                  (dict (
                    field "amount" (str amount) (
                      field "currency" (str currency) (
                        field "billing_unit" (str billing_unit) (
                          field "commitment" (str commitment)
                            (field "tax_included" tax_included end))))))
                  (field "source"
                    (dict (
                      field "type" (str source_type) (
                        field "reference" (str reference) (
                          field "fetched_by_cloudmark" (bool false)
                            (field "document_persisted" (bool false) end)))))
                    (field "evidence_status" (str "operator-declared-unverified") (
                      field "claim"
                        (str
                          "Timestamped operator-supplied price context; not independently verified by CloudMark.")
                        (field "policy"
                          (dict (
                            field "immutable" (bool true) (
                              field "provider_rating_input" (bool false) (
                                field "price_performance_calculated" (bool false)
                                  (field "missing_terms_inferred" (bool false) end)))))
                          end))))))))))

abbrev pub source_word_of : Value → String
source_word_of v = if is_absent v then "controller-receipt-time" else "operator-supplied"

module _ (py : Platform) where
  -- The parts that have their own validation, in the order of the returned dictionary.
  unfoldable pub assemble :
      (observation_id : String)
      → (request : Fields) → (target_id : String) → (system : Fields) → (now : ℕ)
      → (currency billing_unit commitment source_type : String) → Result Fields
  unfolding get_field observed_at target_identity price_amount source_reference observation_fields
  assemble observation_id request target_id system now currency billing_unit commitment
        source_type =
      do
        observed ← observed_at py (get_field "observed_at" request) now
        target ← target_identity target_id system
        amount ← price_amount (get_field "amount" request)
        reference ← source_reference py source_type (get_field "source_reference" request)
        ok (
            observation_fields observation_id (py.iso now) observed
              (source_word_of (get_field "observed_at" request)) target amount currency billing_unit
              commitment (get_field "tax_included" request) source_type reference)

  unfoldable pub currency_of : Fields → String
  unfolding get_field or_else text_of strip upper
  currency_of request = upper (strip (text_or py "" (get_field "currency" request)))

  unfoldable pub word_of : (default : String) → Fields → String → String
  unfolding get_field or_else text_of strip
  word_of default request k = strip (text_or py default (get_field k request))

  unfoldable pub build_cost_observation :
      (observation_id : String)
      → (request : Fields) → (target_id : String) → (system : Fields) → (now : ℕ) → Result Fields
  unfolding unknown_fields missing_fields join_names is_currency get_field currency_of word_of
      assemble
  build_cost_observation observation_id request target_id system now = do
    guard (length (unknown_fields request) == 0) (
        cost_error
          ("Unknown cost observation fields: " ++ₛ join_names (unknown_fields request) ++ₛ "."))
    guard (length (missing_fields request) == 0) (
        cost_error
          ("Missing cost observation fields: " ++ₛ join_names (missing_fields request) ++ₛ "."))
    guard (is_currency (currency_of request))
        (cost_error "currency must be a three-letter ISO-style code.")
    guard (is_one_of billing_units (word_of "" request "billing_unit"))
        (cost_error "billing_unit is outside the fixed cost observation policy.")
    guard (is_one_of commitments (word_of "unknown" request "commitment"))
        (cost_error "commitment is outside the fixed cost observation policy.")
    guard (is_one_of source_types (word_of "" request "source_type"))
        (cost_error "source_type is outside the fixed cost observation policy.")
    guard (is_flag_or_null (get_field "tax_included" request))
        (cost_error "tax_included must be true, false, or null.")
    assemble observation_id request target_id system now (currency_of request)
        (word_of "" request "billing_unit") (word_of "unknown" request "commitment")
        (word_of "" request "source_type")
