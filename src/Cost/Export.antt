-- ===== src/Cost/Export.antt =====
-- cloudmark/cost.py: `cost_observation_csv`, the table of the observations as comma-separated values. The
-- size of the text counts its characters while it is written and its bytes at the end.
use Prim.Native.String.{◌++◌ as ◌++ₛ◌}
use cloud_mark.Prelude.{
  ℕ, suc, ◌*◌, Bool, true, false, Option, none, some, List, [], ◌∷◌, String, str_eq, if◌then◌else◌,
  leb, length,
}
use cloud_mark.Python.{
  Value, Fields, str, list, dict, get_field, or_else, dict_or_empty, is_true, is_false, value_eq,
  truthy, Result, raise, ok, ◌>>=◌, ◌>>◌, guard, cost_error, type_error, Platform, text_of,
}
use cloud_mark.Campaigns.Contract.{text_or, text_lt}
use cloud_mark.Suitability.Runs.{is_one_of}
use cloud_mark.Cost.Amounts.{price_amount}
use cloud_mark.Cost.Parts.{source_reference, utf8_size}
use cloud_mark.Cost.Observation.{
  cost_observation_version, billing_units, commitments, source_types, is_currency, is_flag_or_null,
}
use cloud_mark.Cost.Csv.{csv_line}

abbrev pub export_version : String
export_version = "cost-observation-export-v1"

abbrev pub export_max_rows : ℕ
export_max_rows = 1000

abbrev pub export_max_bytes : ℕ
export_max_bytes = 4 * 1024 * 1024

abbrev pub header_line : String
header_line =
    "export_version,observation_version,observation_id,created_at,observed_at,observed_at_source,target_id,hostname,provider,provider_source,provider_confidence,instance_type,region,zone,operating_system,architecture,amount,currency,billing_unit,commitment,tax_included,source_type,source_reference,evidence_status,claim,immutable,provider_rating_input,price_performance_calculated,missing_terms_inferred\r\n"

-- v in words: a list or a dictionary has no hash.
unfoldable pub in_words : Value → List String → Result Bool
in_words (str s) words = ok (is_one_of words s)
in_words (list vs) words = raise type_error
in_words (dict fs) words = raise type_error
in_words v words = ok false

unfoldable pub text_count : String → ℕ
text_count String.[] = 0
text_count (String.◌∷◌ c s) = suc (text_count s)

module _ (py : Platform) where
  abbrev pub inconsistent : Bool → Result (Unit {0})
  inconsistent test =
      guard test
        (cost_error "Cost observation export received an incomplete or inconsistent contract.")

  -- The tests on an observation, in their order.
  unfoldable pub check_contract :
      (observation target price source policy : Fields) → Result (Unit {0})
  unfolding get_field or_else text_of truthy value_eq price_amount is_currency in_words
      source_reference
  check_contract observation target price source policy = do
    inconsistent (truthy (dict target))
    inconsistent (truthy (dict price))
    inconsistent (truthy (dict source))
    inconsistent (truthy (dict policy))
    inconsistent
        (value_eq (get_field "evidence_status" observation) (str "operator-declared-unverified"))
    known_source ←
        in_words (get_field "observed_at_source" observation)
          ("controller-receipt-time" ∷ "operator-supplied" ∷ [])
    inconsistent known_source
    amount ← price_amount (get_field "amount" price)
    inconsistent (value_eq (str amount) (get_field "amount" price))
    inconsistent (is_currency (text_or py "" (get_field "currency" price)))
    known_unit ← in_words (get_field "billing_unit" price) billing_units
    inconsistent known_unit
    known_commitment ← in_words (get_field "commitment" price) commitments
    inconsistent known_commitment
    inconsistent (is_flag_or_null (get_field "tax_included" price))
    known_type ← in_words (get_field "type" source) source_types
    inconsistent known_type
    reference ←
        source_reference py (text_of py (get_field "type" source)) (get_field "reference" source)
    inconsistent (value_eq (str reference) (get_field "reference" source))
    inconsistent (is_true (get_field "immutable" policy))
    inconsistent (is_false (get_field "provider_rating_input" policy))
    inconsistent (is_false (get_field "price_performance_calculated" policy))
    inconsistent (is_false (get_field "missing_terms_inferred" policy))

  abbrev part : Fields → String → Fields
  part observation k = dict_or_empty (get_field k observation)

  -- The version and the tests.
  unfoldable pub check_observation : Fields → Result (Unit {0})
  unfolding get_field value_eq check_contract
  check_observation observation =
      guard (value_eq (get_field "version" observation) (str cost_observation_version))
        (cost_error "Cost observation export requires the installed observation version.")
      >> check_contract observation (part observation "target") (part observation "price")
          (part observation "source") (part observation "policy")

  unfoldable pub row_values : Fields → List Value
  unfolding get_field
  row_values o =
      let target = part o "target" in
      let price = part o "price" in
      let source = part o "source" in
      let policy = part o "policy" in
      str export_version
      ∷ get_field "version" o
      ∷ get_field "id" o
      ∷ get_field "created_at" o
      ∷ get_field "observed_at" o
      ∷ get_field "observed_at_source" o
      ∷ get_field "id" target
      ∷ get_field "hostname" target
      ∷ get_field "provider" target
      ∷ get_field "provider_source" target
      ∷ get_field "provider_confidence" target
      ∷ get_field "instance_type" target
      ∷ get_field "region" target
      ∷ get_field "zone" target
      ∷ get_field "operating_system" target
      ∷ get_field "architecture" target
      ∷ get_field "amount" price
      ∷ get_field "currency" price
      ∷ get_field "billing_unit" price
      ∷ get_field "commitment" price
      ∷ get_field "tax_included" price
      ∷ get_field "type" source
      ∷ get_field "reference" source
      ∷ get_field "evidence_status" o
      ∷ get_field "claim" o
      ∷ get_field "immutable" policy
      ∷ get_field "provider_rating_input" policy
      ∷ get_field "price_performance_calculated" policy
      ∷ get_field "missing_terms_inferred" policy
      ∷ []

  abbrev oversized : Result String
  oversized = raise (cost_error "Cost observation export exceeds the bounded response size.")

  -- The loop over the ordered observations.
  unfoldable pub write_rows : (output : String) → List Fields → Result String
  unfolding check_observation csv_line row_values text_count
  write_rows output [] = ok output
  write_rows output (o ∷ rest) = check_observation o >>= λ checked.
      let more = output ++ₛ csv_line py (row_values o) in
      elim (leb (text_count more) export_max_bytes) [
        | true ↦ write_rows more rest
        | false ↦ oversized
      ]

  abbrev pub order_key : Fields → String × String
  order_key o = (text_or py "" (get_field "observed_at" o), text_or py "" (get_field "id" o))

  unfoldable pub later : String × String → String × String → Bool
  later (a, i) (b, j) = if str_eq a b then text_lt j i else text_lt b a

  unfoldable pub insert_observation : Fields → List Fields → List Fields
  unfolding get_field or_else text_of later
  insert_observation o [] = o ∷ []
  insert_observation o (p ∷ rest) =
      if later (order_key p) (order_key o) then p ∷ insert_observation o rest else o ∷ p ∷ rest

  -- sorted(…, reverse=True): the latest first, equal ones in their order.
  unfoldable pub latest_first : List Fields → List Fields
  unfolding insert_observation
  latest_first [] = []
  latest_first (o ∷ rest) = insert_observation o (latest_first rest)

  -- The dictionaries, if every item is one.
  unfoldable pub all_dicts : List Value → Option (List Fields)
  all_dicts [] = some []
  all_dicts (dict o ∷ rest) = elim (all_dicts rest) [ none ↦ none | some os ↦ some (o ∷ os) ]
  all_dicts (v ∷ rest) = none

  unfoldable pub bounded_payload : String → Result String
  unfolding utf8_size
  bounded_payload payload = elim (leb (utf8_size payload) export_max_bytes) [
    | true ↦ ok payload
    | false ↦ oversized
  ]

  -- The bound on the rows, the rows and the bound on the bytes.
  unfoldable pub export_records : List Fields → Result String
  unfolding latest_first write_rows bounded_payload
  export_records os =
      guard (leb (length (latest_first os)) export_max_rows)
        (cost_error "Cost observation export exceeds the bounded row limit.")
      >> (write_rows header_line (latest_first os) >>= λ payload. bounded_payload payload)

  abbrev pub export_found : Option (List Fields) → Result String
  export_found none = raise (cost_error "Cost observation export received an invalid record.")
  export_found (some os) = export_records os

  -- cost_observation_csv
  unfoldable pub cost_observation_csv : List Value → Result String
  unfolding all_dicts export_records
  cost_observation_csv observations = export_found (all_dicts observations)
