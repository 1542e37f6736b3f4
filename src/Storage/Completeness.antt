-- ===== src/Storage/Completeness.antt =====
-- cloudmark/storage_campaigns.py: `_measurement_contract_complete`, a result against its profile.
use Prim.Native.String.{◌++◌ as ◌++ₛ◌}
use cloud_mark.Prelude.{
  ℕ, ◌*◌, Bool, true, false, not, ◌&&◌, ◌||◌, List, ◌∷◌, String, str_eq, if◌then◌else◌, every,
  length, pos,
}
use cloud_mark.Python.{
  Value, Fields, int, str, list, dict, end, field, get_field, value_eq, Result, ok, ◌>>=◌, Platform,
  text_of, or_else,
}
use cloud_mark.Campaigns.Contract.{text_or}
use cloud_mark.Suitability.Contracts.{dict_at}
use cloud_mark.Suitability.StorageContract.{text_is}
use cloud_mark.Storage.Measurements.{
  finite_number, time_series_contract, directions_of, direction_complete, count_at, moves_bytes,
  integrity_verified, durability_observed, operation_complete, fields_of, all_dictionaries, jobs_of,
  same_names, preflight_matches,
}

abbrev pub is_native : Fields → Bool
is_native profile = text_is (get_field "executor" profile) "native-filesystem"

abbrev verifies_files : String → Bool
verifies_files name = str_eq name "small-file-read-verify" || str_eq name "durable-create-fsync"

module _ (py : Platform) where
  -- _fio_measurement_complete
  unfoldable pub fio_measurement_complete : (measurement expected : Fields) → Bool
  unfolding get_field or_else text_of value_eq finite_number direction_complete time_series_contract
  fio_measurement_complete measurement expected =
      let directions = directions_of (text_or py "" (get_field "rw" expected)) in
      value_eq (get_field "workload" measurement) (dict expected)
      && finite_number true (get_field "runtime_seconds" measurement)
      && every (λ direction. direction_complete (get_field direction measurement)) directions
      && time_series_contract (get_field "time_series" measurement) directions

  all_fio : (measurements expected : List Fields) → Bool
  unfolding fio_measurement_complete
  all_fio (m ∷ ms) (e ∷ es) = fio_measurement_complete m e && all_fio ms es
  all_fio _ _ = true

  expected_bytes_of : (name : String) → (expected_count : ℕ) → (profile : Fields) → Result ℕ
  unfolding count_at
  expected_bytes_of name expected_count profile = elim (moves_bytes name) [
    | false ↦ ok 0
    | true ↦ (count_at "file_bytes" profile >>= λ bytes. ok (expected_count * bytes))
  ]

  -- _filesystem_measurement_complete
  unfoldable pub filesystem_measurement_complete :
      (measurement expected profile : Fields) → Result Bool
  unfolding get_field or_else text_of value_eq count_at expected_bytes_of operation_complete
      integrity_verified durability_observed
  filesystem_measurement_complete measurement expected profile = do
    let name = text_or py "" (get_field "name" expected)
    let durable = str_eq name "durable-create-fsync"
    expected_count ← count_at (if durable then "durable_file_count" else "file_count") profile
    expected_bytes ← expected_bytes_of name expected_count profile
    ok (
        operation_complete expected_count expected_bytes measurement expected
        && (not (verifies_files name)
            || integrity_verified expected_count (dict_at "integrity" measurement))
        && (not durable || durability_observed expected_count (dict_at "durability" measurement)))

  all_filesystem : (measurements expected : List Fields) → (profile : Fields) → Result Bool
  unfolding filesystem_measurement_complete
  all_filesystem (m ∷ ms) (e ∷ es) profile =
      filesystem_measurement_complete m e profile >>= λ complete. elim complete [
        | false ↦ ok false
        | true ↦ all_filesystem ms es profile
      ]
  all_filesystem _ _ profile = ok true

  -- The contract that the native executor states.
  native_contract : (file_bytes : ℕ) → Fields
  unfolding text_of
  native_contract file_bytes = field "worker_model" (str "single-process-sequential") (
      field "payload"
        (str ("deterministic-" ++ₛ text_of py (int (pos file_bytes)) ++ₛ "-byte-sha256-verified"))
        (field "latency_clock" (str "python-perf-counter-ns") (
          field "cache_control" (str "observed-not-flushed")
            (field "claim_scope" (str "guest-filesystem-and-python-runtime") end))))

  native_complete : Value → (measurements : List Fields) → (profile : Fields) → Result Bool
  unfolding count_at native_contract value_eq get_field all_filesystem
  native_complete (dict contract) measurements profile = count_at "file_bytes" profile >>= λ bytes.
      elim (value_eq (dict contract) (dict (native_contract bytes))) [
        | false ↦ ok false
        | true ↦ all_filesystem measurements (jobs_of profile) profile
      ]
  native_complete v measurements profile = ok false

  measurements_complete : Value → (result profile : Fields) → Result Bool
  unfolding get_field value_eq fields_of all_dictionaries same_names preflight_matches
      native_complete all_fio
  measurements_complete (list vs) result profile =
      if not (
        all_dictionaries vs
        && same_names (fields_of vs) (jobs_of profile)
        && preflight_matches (dict_at "preflight" result) profile (length (jobs_of profile)))
      then ok false
      else if is_native profile
      then native_complete (get_field "measurement_contract" result) (fields_of vs) profile
      else ok (all_fio (fields_of vs) (jobs_of profile))
  measurements_complete v result profile = ok false

  -- _measurement_contract_complete
  unfoldable pub measurement_contract_complete : (result profile : Fields) → Result Bool
  unfolding get_field value_eq measurements_complete
  measurement_contract_complete result profile =
      measurements_complete
        (get_field (if is_native profile then "filesystem_operations" else "jobs") result) result
        profile
