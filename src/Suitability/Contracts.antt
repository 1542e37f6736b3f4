-- ===== src/Suitability/Contracts.antt =====
-- cloudmark/suitability.py: the parts of a cohort's contract that are read from a run: its topology, its
-- database implementation, and the texts they are made of.
use Prim.Native.String.{◌++◌ as ◌++ₛ◌}
use cloud_mark.Prelude.{
  ℕ, Bool, true, false, not, ◌&&◌, Option, none, some, List, [], ◌∷◌, String, str_eq, if◌then◌else◌,
  Float, fraction, pos, ltb, is_finite, float_le, float_lt, float_zero,
}
use cloud_mark.Python.{
  Value, Fields, null, int, float, str, dict, get_field, or_else, dict_or_empty, truthy, Result, ok,
  raise, ◌>>=◌, value_error, type_error, Platform, text_of, float_of, strip, lower, contains, codes,
  squeeze, replace_bars, take_text, value_eq,
}
use cloud_mark.Store.Schema.{Run}
use cloud_mark.Campaigns.Contract.{text_or}
use cloud_mark.Suitability.Runs.{is_one_of}
use cloud_mark.Suitability.Evidence.{nested, result_value}

-- v.get(key), or {} where that is no dictionary.
abbrev pub dict_at : String → Fields → Fields
dict_at k fs = dict_or_empty (get_field k fs)

abbrev pub result_fields : Run → Fields
result_fields run = dict_or_empty (result_value run)

unfoldable pub valid_scopes : List String
valid_scopes = "same-host" ∷ "same-zone" ∷ "cross-zone" ∷ "cross-region" ∷ "public-internet" ∷ []

-- The last lines of `_run_topology_contract`.
unfoldable pub topology_contract :
    (verification_status observed_scope source scope : String) → String × String
unfolding valid_scopes
topology_contract verification_status observed_scope source scope =
    if is_one_of ("confirmed" ∷ "derived" ∷ []) verification_status
      && is_one_of valid_scopes observed_scope
    then (observed_scope, "independently-derived")
    else if str_eq verification_status "contradicted"
    then ("undeclared", "contradicted")
    else if str_eq source "operator-declared" && is_one_of valid_scopes scope
    then (scope, "operator-declared")
    else ("undeclared", "unavailable")

abbrev pub is_paired_suite : String → Bool
is_paired_suite suite = is_one_of ("network" ∷ "database" ∷ "web" ∷ []) suite

module _ (py : Platform) where
  -- _run_topology_contract
  unfoldable pub run_topology_contract : Run → String × String
  unfolding nested get_field or_else text_of topology_contract
  run_topology_contract run =
      if not (is_paired_suite run.suite)
      then ("single-target", "single-target")
      else (let topology =
            dict_or_empty (nested (result_value run) ("session" ∷ "topology" ∷ [])) in
          let verification = dict_at "verification" topology in
          topology_contract (text_or py "legacy" (get_field "status" verification))
            (text_or py "undeclared" (get_field "observed_scope" verification))
            (text_or py "unavailable" (get_field "source" topology))
            (text_or py "undeclared" (get_field "scope" topology)))

  -- _contract_token
  unfoldable pub contract_token : Value → (fallback : String) → String
  unfolding or_else text_of squeeze replace_bars take_text
  contract_token value fallback =
      let normalized = replace_bars (squeeze (text_or py "" value)) in
      if str_eq normalized "" then fallback else take_text 160 normalized

  abbrev engine_of : Fields → String
  engine_of result =
      if truthy (get_field "engine" result)
      then text_of py (get_field "engine" result)
      else if truthy (get_field "database_measurements" result)
      then "postgresql"
      else "unknown"

  abbrev implementation_of : (engine : String) → Fields → String
  implementation_of engine server =
      if str_eq engine "mysql"
      then text_or py "unknown" (get_field "implementation" server)
      else engine

  abbrev version_of : (engine : String) → Fields → Value
  version_of engine server =
      if str_eq engine "mysql"
      then nested (dict server) ("tool" ∷ "version" ∷ [])
      else if str_eq engine "redis"
      then nested (dict server) ("tool" ∷ "version" ∷ [])
      else if str_eq engine "postgresql"
      then nested (dict server) ("tools" ∷ "postgres" ∷ [])
      else null

  -- _run_implementation_contract
  unfoldable pub run_implementation_contract : Run → String × Bool
  unfolding nested get_field or_else truthy text_of strip squeeze replace_bars
  run_implementation_contract run =
      if not (str_eq run.suite "database")
      then ("not-applicable", true)
      else (let engine = engine_of (result_fields run) in
          let server = dict_at "server" (result_fields run) in
          let implementation = implementation_of engine server in
          let value = strip (text_or py "" (version_of engine server)) in
          let verified =
            not (str_eq engine "unknown")
            && not (str_eq implementation "unknown")
            && not (str_eq value "") in
          let safe_version =
            if str_eq value "" then "unknown-version" else replace_bars (squeeze value) in
          (
            engine ++ₛ ":" ++ₛ replace_bars (squeeze implementation) ++ₛ ":" ++ₛ safe_version,
            verified,
          ))

  -- float(value), with the exceptions that it raises.
  to_float : Value → Result Float
  unfolding float_of
  to_float (str s) = elim (float_of py (str s)) [
    | none ↦ raise (value_error "float")
    | some x ↦ ok x
  ]
  to_float v = elim (float_of py v) [ none ↦ raise type_error | some x ↦ ok x ]

  -- _provider_identity_verified: the tests stop at the first that fails.
  unfoldable pub provider_identity_verified : Fields → Result Bool
  unfolding get_field or_else text_of value_eq to_float lower contains
  provider_identity_verified provider =
      let source = lower (text_or py "" (get_field "source" provider)) in
      if value_eq (get_field "name" provider) (str "Unknown") then ok false else do
        confidence ← to_float (or_else (get_field "confidence" provider) (int (pos 0)))
        ok (
            float_le (fraction (pos 1) 1) confidence
            && not (contains source (codes "unverified"))
            && not (contains source (codes "declared")))

abbrev pub positive_integer : Value → Option ℕ
positive_integer (int (pos n)) = if ltb 0 n then some n else none
positive_integer _ = none

abbrev keep_positive : Float → Option Float
keep_positive x = if is_finite x && float_lt float_zero x then some x else none

unfoldable pub finite_positive_number : Value → Option Float
finite_positive_number (int n) = keep_positive (fraction n 0)
finite_positive_number (float x) = keep_positive x
finite_positive_number _ = none
