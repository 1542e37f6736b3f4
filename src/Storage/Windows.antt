-- ===== src/Storage/Windows.antt =====
-- cloudmark/storage_campaigns.py: `_validate_storage_result`, whether a run is a window of a campaign. The
-- stored times are instants of UTC; the first ten characters of a time's ISO text are its day.
use Prim.Native.String.{◌++◌ as ◌++ₛ◌}
use cloud_mark.Prelude.{
  ℕ, Bool, true, false, not, ◌||◌, Option, none, some, List, [], ◌∷◌, String, str_eq, if◌then◌else◌,
  ltb, select_one,
}
use cloud_mark.Python.{
  Value, Fields, str, dict, end, field, get_field, dict_or_empty, is_dict, is_true, optional_text,
  truthy, value_eq, Result, ok, ◌>>=◌, Platform, text_of, or_else, squeeze, take_text,
}
use cloud_mark.Store.Schema.{Run, is_completed}
use cloud_mark.Campaigns.Contract.{text_or}
use cloud_mark.Campaigns.Attempts.{status_text}
use cloud_mark.Profiles.Storage.{storage_tables}
use cloud_mark.Suitability.Contracts.{dict_at, result_fields}
use cloud_mark.Suitability.StorageContract.{text_is, storage_run_contract}
use cloud_mark.Storage.Completeness.{is_native, measurement_contract_complete}

-- STORAGE_PROFILES.get(name)
abbrev named_profile : String → String × Fields → Bool
named_profile name entry = str_eq entry.0 name

abbrev pub found_profile : Option (String × Fields) → Option Fields
found_profile none = none
found_profile (some entry) = some entry.1

unfoldable pub storage_profile : String → Option Fields
unfolding select_one
storage_profile name = found_profile (select_one (named_profile name) storage_tables)

abbrev pub profile_or_empty : Option Fields → Fields
profile_or_empty none = end
profile_or_empty (some profile) = profile

-- Whether a run is valid, why or why not, and the day that it was completed on.
pub record Window : Type 0 where
  pub valid : Bool
  pub reason_code : String
  pub window_day : Option String

abbrev pub refused : String → Option String → Window
refused reason day = record { valid = false; reason_code = reason; window_day = day }

-- What a run is compared with.
pub record Expected : Type 0 where
  pub profile_name : String
  pub profile_version : String
  pub methodology_version : String
  pub target_id : String
  pub target_contract : Option Fields
  pub storage_contract : Option String

-- The reason of the first test that holds.
unfoldable pub first_refusal : List (Bool × String) → Option String
first_refusal [] = none
first_refusal ((test, reason) ∷ rest) =
    let later = first_refusal rest in if test then some reason else later

-- The times of a run that passes all other tests.
unfoldable pub window_of : (day_text : ℕ → String) → (started_at finished_at : Option ℕ) → Window
window_of day_text started_at none = refused "completion-time-unavailable" none
window_of day_text none (some finished) =
    refused "start-time-unavailable" (some (day_text finished))
window_of day_text (some started) (some finished) =
    let day = day_text finished in
    if ltb finished started
    then refused "completion-before-start" (some day)
    else if not (str_eq (day_text started) day)
    then refused "cross-utc-midnight" (some day)
    else record { valid = true; reason_code = "valid-window"; window_day = some day }

abbrev differs_from : Option String → String → Bool
differs_from none s = false
differs_from (some t) s = not (str_eq s t)

abbrev other_target : Option Fields → Fields → Bool
other_target none target = false
other_target (some contract) target = not (value_eq (dict target) (dict contract))

module _ (py : Platform) where
  -- _text
  unfoldable pub bounded_word : Value → (fallback : String) → String
  unfolding or_else text_of squeeze take_text
  bounded_word value fallback =
      let normalized = squeeze (text_or py "" value) in
      if str_eq normalized "" then fallback else take_text 240 normalized

  unfoldable pub storage_target_id : Run → String
  unfolding get_field or_else text_of
  storage_target_id run = text_or py "controller" (get_field "agent_id" run.request)

  unfoldable pub storage_target_identity : (target_id : String) → (system : Fields) → Fields
  unfolding get_field or_else bounded_word
  storage_target_identity target_id system =
      let inventory = dict_at "inventory" system in
      let provider = dict_at "provider" system in
      let operating_system = dict_at "os" inventory in
      let word : Value → Value = λ v. str (bounded_word v "unavailable") in
      field "id" (str target_id) (
        field "hostname" (word (get_field "hostname" inventory)) (
          field "provider"
            (str (
              bounded_word (or_else (get_field "provider" provider) (get_field "name" provider))
                "Unknown"))
            (field "provider_source" (word (get_field "source" provider)) (
              field "instance_type" (word (get_field "instance_type" provider)) (
                field "region" (word (get_field "region" provider)) (
                  field "zone" (word (get_field "zone" provider)) (
                    field "operating_system" (word (get_field "system" operating_system)) (
                      field "operating_system_release" (word (get_field "release" operating_system))
                        (field "architecture" (word (get_field "architecture" operating_system))
                          end)))))))))

  -- The tests before the measurements are read.
  unfoldable pub early_tests : Expected → Run → (result : Fields) → List (Bool × String)
  unfolding get_field or_else text_of value_eq truthy status_text storage_target_id
      storage_target_identity
  early_tests expected run result =
      let name = expected.profile_name in
      let tool = dict_at "tool" result in
      let evidence = get_field "target_evidence" result in
      (
        not (str_eq run.suite "storage") || not (str_eq run.profile name),
        "campaign-profile-mismatch",
      )
      ∷ (not (str_eq (storage_target_id run) expected.target_id), "campaign-target-mismatch")
      ∷ (not (is_completed run.status), "run-" ++ₛ status_text run.status)
      ∷ (
        not (text_is (get_field "suite" run.request) "storage")
            || not (text_is (get_field "profile" run.request) name),
        "campaign-request-mismatch",
      )
      ∷ (
        not (text_is (get_field "suite" result) "storage")
            || not (text_is (get_field "profile" result) name),
        "campaign-result-mismatch",
      )
      ∷ (
        not (str_eq (text_or py "" (get_field "profile_version" result)) expected.profile_version),
        "profile-version-mismatch",
      )
      ∷ (
        not (
            str_eq (text_or py "" (get_field "methodology_version" result))
              expected.methodology_version),
        "methodology-version-mismatch",
      )
      ∷ (
        not (
            str_eq (text_or py "" (optional_text run.methodology_version))
              expected.methodology_version),
        "run-methodology-version-mismatch",
      )
      ∷ (
        not (truthy (get_field "name" tool))
            || (not (truthy (get_field "version" tool))
                || not (value_eq (optional_text run.tool_version) (get_field "version" tool))),
        "run-tool-version-mismatch",
      )
      ∷ (not (is_dict evidence), "target-evidence-unavailable")
      ∷ (
        other_target expected.target_contract
            (storage_target_identity expected.target_id (dict_or_empty evidence)),
        "target-evidence-mismatch",
      )
      ∷ (
        not (is_true (get_field "test_file_removed" (dict_at "safety" result))),
        "cleanup-not-verified",
      )
      ∷ []

  -- The tests after them.
  unfoldable pub late_tests :
      Expected → Run → (result profile : Fields) → (complete : Bool) → List (Bool × String)
  unfolding get_field value_eq storage_run_contract
  late_tests expected run result profile complete =
      let safety = dict_at "safety" result in
      let contract = storage_run_contract py run in
      (not complete, "measurement-contract-incomplete")
      ∷ (
        not (
            is_true (
              get_field (if is_native profile then "workspace_removed" else "fio_logs_removed")
                safety)),
        "cleanup-not-verified",
      )
      ∷ (not contract.1, "storage-contract-unverified")
      ∷ (differs_from expected.storage_contract contract.0, "storage-contract-mismatch")
      ∷ []

  abbrev pub day_text : ℕ → String
  day_text t = take_text 10 (py.iso t)

  -- _validate_storage_result
  unfoldable pub validate_storage_result : Expected → Run → Result Window
  unfolding first_refusal early_tests late_tests storage_profile measurement_contract_complete
      window_of take_text
  validate_storage_result expected run =
      let result = result_fields run in
      let profile = profile_or_empty (storage_profile expected.profile_name) in
      elim (first_refusal (early_tests expected run result)) [
        | some reason ↦ ok (refused reason none)
        | none ↦
            (measurement_contract_complete py result profile >>= λ complete.
            ok (elim (first_refusal (late_tests expected run result profile complete)) [
              | some reason ↦ refused reason none
              | none ↦ window_of day_text run.started_at run.finished_at
            ]))
      ]
