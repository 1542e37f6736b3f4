-- ===== src/Storage/Contract.antt =====
-- cloudmark/storage_campaigns.py: `build_storage_campaign_contract`, the immutable contract of a campaign.
use Prim.Native.String.{◌++◌ as ◌++ₛ◌}
use cloud_mark.Prelude.{ℕ, true, false, ◌&&◌, Option, none, some, String, leb, pos}
use cloud_mark.Python.{
  Fields, bool, int, str, dict, end, field, get_field, dict_or_empty, is_dict, value_eq, Result, ok,
  raise, ◌>>=◌, ◌>>◌, guard, value_error, Platform, text_of,
}
use cloud_mark.Store.Schema.{Run}
use cloud_mark.Suitability.Contracts.{result_fields}
use cloud_mark.Suitability.StorageContract.{storage_run_contract}
use cloud_mark.Storage.Windows.{
  Window, Expected, storage_profile, storage_target_id, storage_target_identity,
  validate_storage_result,
}

abbrev pub storage_campaign_version : String
storage_campaign_version = "storage-campaign-v1"

abbrev pub storage_min_windows : ℕ
storage_min_windows = 3

abbrev pub storage_max_windows : ℕ
storage_max_windows = 30

-- An error that names why the baseline run cannot start a campaign.
abbrev not_eligible : String → String
not_eligible reason = "The baseline storage Run is not campaign-eligible: " ++ₛ reason ++ₛ "."

unfoldable pub contract_fields :
    (profile profile_version methodology_version : String)
    → (target : Fields) → (storage_contract run_id window_day : String) → (target_windows : ℕ)
    → Fields
contract_fields profile profile_version methodology_version target storage_contract run_id
      window_day target_windows =
    field "version" (str storage_campaign_version) (
      field "suite" (str "storage") (
        field "profile" (str profile) (
          field "profile_version" (str profile_version) (
            field "methodology_version" (str methodology_version) (
              field "target" (dict target) (
                field "storage_contract" (str storage_contract) (
                  field "baseline"
                    (dict (field "run_id" (str run_id) (field "window_day" (str window_day) end)))
                    (field "window_policy"
                      (dict (
                        field "dispatch" (str "manual-confirmation-only") (
                          field "calendar" (str "UTC-completion-day") (
                            field "maximum_valid_windows_per_day" (int (pos 1))
                              (field "target_distinct_utc_days" (int (pos target_windows)) end)))))
                      (field "claims"
                        (dict (
                          field "single_target_temporal_sampling" (bool true) (
                            field "provider_rating_enabled" (bool false)
                              (field "independent_target_sampling_satisfied" (bool false) end))))
                        end)))))))))

module _ (py : Platform) where
  with_window :
      (baseline_run : Run)
      → Expected
      → (target : Fields) → (target_windows : ℕ) → Window
      → Result Fields
  unfolding storage_run_contract contract_fields
  with_window run expected target target_windows w =
      let contract = storage_run_contract py run in
      elim w.window_day [
        | none ↦ raise (value_error (not_eligible w.reason_code))
        | some day ↦ do
          guard w.valid (value_error (not_eligible w.reason_code))
          guard contract.1
              (value_error "The baseline storage environment and executor contract is unavailable.")
          ok (
              contract_fields expected.profile_name expected.profile_version
                expected.methodology_version target contract.0 run.id day target_windows)
      ]

  with_profile :
      (baseline_run : Run)
      → (target_system : Fields) → (target_windows : ℕ) → Option Fields
      → Result Fields
  unfolding get_field value_eq text_of storage_target_id storage_target_identity
      validate_storage_result with_window
  with_profile run target_system target_windows none =
      raise (value_error "The baseline Run uses an unknown storage profile.")
  with_profile run target_system target_windows (some profile) = do
    let target_id = storage_target_id py run
    let evidence = get_field "target_evidence" (result_fields run)
    let target = storage_target_identity py target_id (dict_or_empty evidence)
    guard (is_dict evidence) (value_error (not_eligible "target-evidence-unavailable"))
    guard (value_eq (dict (storage_target_identity py target_id target_system)) (dict target))
        (value_error (not_eligible "target-evidence-mismatch"))
    let expected : Expected = record {
      profile_name = run.profile;
      profile_version = text_of py (get_field "profile_version" profile);
      methodology_version = text_of py (get_field "methodology_version" profile);
      target_id = target_id;
      target_contract = some target;
      storage_contract = none;
    }
    w ← validate_storage_result py expected run
    with_window run expected target target_windows w

  -- build_storage_campaign_contract
  unfoldable pub build_storage_campaign_contract :
      (baseline_run : Run) → (target_system : Fields) → (target_windows : ℕ) → Result Fields
  unfolding storage_profile with_profile
  build_storage_campaign_contract run target_system target_windows = do
    guard (leb storage_min_windows target_windows && leb target_windows storage_max_windows)
        (value_error "target_windows must be between 3 and 30.")
    with_profile run target_system target_windows (storage_profile run.profile)
