-- ===== src/Storage/Measurements.antt =====
-- cloudmark/storage_campaigns.py: whether the measurements of a result are complete. The jobs of a profile
-- are dictionaries, and its counts are natural numbers.
use cloud_mark.Prelude.{
  ℕ, Bool, true, false, not, ◌&&◌, ◌||◌, Option, none, some, List, [], ◌∷◌, String, str_eq,
  if◌then◌else◌, any, every, map, Float, fraction, pos, is_finite, float_lt, float_le, float_zero,
}
use cloud_mark.Python.{
  Value, Items, Fields, int, float, str, list, dict, nil, cons, get_field, dict_or_empty, is_dict,
  is_false, value_eq, Result, raise, ok, key_error, type_error,
}
use cloud_mark.Suitability.StorageContract.{text_is}

-- A finite number that is no bool.
abbrev pub plain_number : Value → Option Float
plain_number (int n) = some (fraction n 0)
plain_number (float x) = if is_finite x then some x else none
plain_number _ = none

-- _finite_number
unfoldable pub finite_number : (positive : Bool) → Value → Bool
finite_number positive v = elim (plain_number v) [
  | none ↦ false
  | some x ↦ if positive then float_lt float_zero x else float_le float_zero x
]

abbrev in_order : Option Float → Option Float → Bool
in_order (some x) (some y) = float_le x y
in_order _ _ = true

-- Each sample is at most the next one.
unfoldable pub ascending : List Value → Bool
ascending [] = true
ascending (v ∷ []) = true
ascending (v ∷ w ∷ rest) = in_order (plain_number v) (plain_number w) && ascending (w ∷ rest)

-- _latency_contract
unfoldable pub latency_contract : Value → List String → Bool
unfolding get_field finite_number ascending
latency_contract (dict fs) names =
    let samples = map (λ name. get_field name fs) names in
    every (finite_number false) samples && ascending samples
latency_contract v names = false

abbrev natural_time : Value → Bool
natural_time (int (pos n)) = true
natural_time _ = false

point_complete : List String → Value → Bool
unfolding get_field finite_number value_eq
point_complete directions (dict fs) =
    natural_time (get_field "elapsed_ms" fs)
    && finite_number false (get_field "value" fs)
    && any (text_is (get_field "direction" fs)) directions
point_complete directions v = false

all_points : List String → Items → Bool
unfolding point_complete
all_points directions nil = true
all_points directions (cons v vs) = point_complete directions v && all_points directions vs

-- A list that is not empty, of complete points.
points_complete : List String → Value → Bool
unfolding all_points
points_complete directions (list (cons v vs)) = all_points directions (cons v vs)
points_complete directions v = false

-- _time_series_contract
unfoldable pub time_series_contract : Value → List String → Bool
unfolding get_field value_eq points_complete
time_series_contract (dict fs) directions =
    value_eq (get_field "interval_ms" fs) (int (pos 1000))
    && every (λ name. points_complete directions (get_field name fs))
        ("bandwidth" ∷ "iops" ∷ "latency" ∷ [])
time_series_contract v directions = false

abbrev pub directions_of : String → List String
directions_of rw =
    if str_eq rw "read" || str_eq rw "randread"
    then "read" ∷ []
    else if str_eq rw "write" || str_eq rw "randwrite"
    then "write" ∷ []
    else "read" ∷ "write" ∷ []

-- The metrics of one direction.
unfoldable pub direction_complete : Value → Bool
unfolding get_field finite_number latency_contract
direction_complete (dict fs) =
    every (λ name. finite_number true (get_field name fs))
      ("io_bytes" ∷ "iops" ∷ "bandwidth_bytes_per_second" ∷ [])
    && latency_contract (dict fs) ("p50_ms" ∷ "p90_ms" ∷ "p95_ms" ∷ "p99_ms" ∷ "p999_ms" ∷ [])
direction_complete v = false

-- int(profile[key])
unfoldable pub count_at : String → Fields → Result ℕ
unfolding get_field
count_at key profile = elim (get_field key profile) [
  | int n ↦ elim n [ pos m ↦ ok m | _ ↦ raise type_error ]
  | _ ↦ raise key_error
]

abbrev is_count : Value → ℕ → Bool
is_count v n = value_eq v (int (pos n))

-- `name` is one of the operations that read or write the bytes of all files.
abbrev pub moves_bytes : String → Bool
moves_bytes name =
    str_eq name "small-file-create"
    || (str_eq name "small-file-read-verify" || str_eq name "durable-create-fsync")

unfoldable pub integrity_verified : (expected_count : ℕ) → Fields → Bool
unfolding get_field value_eq
integrity_verified expected_count integrity =
    text_is (get_field "status" integrity) "verified"
    && text_is (get_field "algorithm" integrity) "SHA-256"
    && is_count (get_field "verified_files" integrity) expected_count
    && is_count (get_field "mismatches" integrity) 0

unfoldable pub durability_observed : (expected_count : ℕ) → Fields → Bool
unfolding get_field value_eq
durability_observed expected_count durability =
    text_is (get_field "status" durability) "per-file-fsync"
    && is_count (get_field "file_fsync_count" durability) expected_count
    && is_dict (get_field "directory_fsync" durability)
    && text_is (get_field "status" (dict_or_empty (get_field "directory_fsync" durability)))
        "observed"

-- A text that is not empty.
abbrev some_text : Value → Bool
some_text (str s) = not (str_eq s "")
some_text _ = false

unfoldable pub operation_complete :
    (expected_count expected_bytes : ℕ) → (measurement expected : Fields) → Bool
unfolding get_field value_eq finite_number latency_contract
operation_complete expected_count expected_bytes measurement expected =
    value_eq (get_field "operation" measurement) (get_field "operation" expected)
    && is_count (get_field "operation_count" measurement) expected_count
    && is_count (get_field "bytes_processed" measurement) expected_bytes
    && finite_number true (get_field "elapsed_seconds" measurement)
    && finite_number true (get_field "operations_per_second" measurement)
    && latency_contract (get_field "latency_ms" measurement)
        ("minimum" ∷ "p50" ∷ "p95" ∷ "p99" ∷ "maximum" ∷ [])
    && some_text (get_field "cache_scope" measurement)

-- The fields of the items of a list.
unfoldable pub fields_of : Items → List Fields
fields_of nil = []
fields_of (cons v vs) = dict_or_empty v ∷ fields_of vs

unfoldable pub all_dictionaries : Items → Bool
all_dictionaries nil = true
all_dictionaries (cons v vs) = is_dict v && all_dictionaries vs

abbrev pub jobs_of : Fields → List Fields
jobs_of profile = elim (get_field "jobs" profile) [ list vs ↦ fields_of vs | _ ↦ [] ]

-- As many items as jobs, with the same names in the same order.
unfoldable pub same_names : (measurements expected : List Fields) → Bool
unfolding get_field value_eq
same_names [] [] = true
same_names (m ∷ ms) (e ∷ es) =
    value_eq (get_field "name" m) (get_field "name" e) && same_names ms es
same_names _ _ = false

unfoldable pub preflight_matches : (preflight profile : Fields) → (job_count : ℕ) → Bool
unfolding get_field value_eq
preflight_matches preflight profile job_count =
    value_eq (get_field "profile_version" preflight) (get_field "profile_version" profile)
    && value_eq (get_field "methodology_version" preflight)
        (get_field "methodology_version" profile)
    && is_count (get_field "job_count" preflight) job_count
    && is_false (get_field "destructive" preflight)
    && is_false (get_field "raw_device" preflight)
