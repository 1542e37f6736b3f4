-- ===== src/Suitability/Export.antt =====
-- cloudmark/suitability.py: `provider_observation_csv`, the export of the published cohorts. It has the cells
-- of the export of cloudmark/cost.py, and a list or a dictionary as JSON text.
use Prim.Native.String.{◌++◌ as ◌++ₛ◌}
use cloud_mark.Prelude.{
  ℕ, suc, ◌*◌, true, false, List, [], ◌∷◌, ◌++◌, String, if◌then◌else◌, leb, map,
}
use cloud_mark.Python.{
  Value, Items, Fields, str, list, dict, nil, cons, get_field, dict_or_empty, value_eq, Result,
  raise, ok, ◌>>=◌, ◌>>◌, guard, value_error, Platform, text_of, or_else,
}
use cloud_mark.Campaigns.Contract.{text_or, text_lt}
use cloud_mark.Cost.Parts.{utf8_size}
use cloud_mark.Cost.Csv.{Cell, neutral, csv_cell, cells_line}
use cloud_mark.Cost.Export.{text_count}

abbrev provider_observation_version : String
provider_observation_version = "provider-observations-v6"

abbrev observation_export_version : String
observation_export_version = "provider-observation-export-v1"

abbrev observation_max_rows : ℕ
observation_max_rows = 50000

abbrev observation_max_bytes : ℕ
observation_max_bytes = 16 * 1024 * 1024

abbrev observation_header : String
observation_header =
    "export_version,generated_at,projection_version,rating_status,cohort_id,provider,instance_type,region,operating_system,comparison_status,cohort_target_ids_json,observed_suites_json,metric_contract_id,metric_key,metric_label,suite,direction,unit,profile,methodology_version,topology_scope,topology_evidence,implementation_contract,system_execution_contract,storage_contract,metric_status,reasons_json,sample_count,target_count,window_count,windows_json,run_ids_json,latest_observed_at,median,p10,p90,minimum,maximum,best,worst,relative_spread_percent,stability\r\n"

-- The dictionaries of a list; the other items are skipped.
dictionaries : Items → List Fields
dictionaries nil = []
dictionaries (cons (dict fs) vs) = fs ∷ dictionaries vs
dictionaries (cons v vs) = dictionaries vs

abbrev dictionaries_of : Value → List Fields
dictionaries_of (list vs) = dictionaries vs
dictionaries_of v = []

abbrev observations_too_large : Result String
observations_too_large =
    raise (value_error "Provider observation export exceeds the bounded response size.")

module _ (py : Platform) where
  insert_sorted : (key : String) → Fields → List Fields → List Fields
  unfolding get_field or_else text_of
  insert_sorted key x [] = x ∷ []
  insert_sorted key x (y ∷ ys) =
      if text_lt (text_or py "" (get_field key y)) (text_or py "" (get_field key x))
      then y ∷ insert_sorted key x ys
      else x ∷ y ∷ ys

  -- sorted(…, key=lambda item: str(item.get(key) or ""))
  sorted_by : (key : String) → List Fields → List Fields
  unfolding insert_sorted
  sorted_by key [] = []
  sorted_by key (x ∷ rest) = insert_sorted key x (sorted_by key rest)

  -- _csv_cell
  unfoldable pub observation_cell : Value → Cell
  unfolding csv_cell neutral
  observation_cell (list vs) = neutral (py.dumps (list vs))
  observation_cell (dict fs) = neutral (py.dumps (dict fs))
  observation_cell v = csv_cell py v

  -- A group with each of its metrics.
  pair_up : Fields → List Fields → List (Fields × Fields)
  pair_up group [] = []
  pair_up group (metric ∷ rest) = (group, metric) ∷ pair_up group rest

  -- The rows of all groups, in their order.
  observation_rows : List Fields → List (Fields × Fields)
  unfolding get_field dictionaries sorted_by pair_up
  observation_rows [] = []
  observation_rows (group ∷ rest) =
      pair_up group (sorted_by "contract_id" (dictionaries_of (get_field "metric_cohorts" group)))
      ++ observation_rows rest

  observation_values : (observations group metric : Fields) → (generated_at : String) → List Value
  unfolding get_field or_else
  observation_values observations group metric generated_at =
      let statistics = dict_or_empty (get_field "statistics" metric) in
      str observation_export_version
      ∷ str generated_at
      ∷ get_field "version" observations
      ∷ get_field "rating_status" observations
      ∷ get_field "id" group
      ∷ get_field "provider" group
      ∷ get_field "instance_type" group
      ∷ get_field "region" group
      ∷ get_field "operating_system" group
      ∷ get_field "comparison_status" group
      ∷ or_else (get_field "target_ids" group) (list nil)
      ∷ or_else (get_field "observed_suites" group) (list nil)
      ∷ get_field "contract_id" metric
      ∷ get_field "key" metric
      ∷ get_field "label" metric
      ∷ get_field "suite" metric
      ∷ get_field "direction" metric
      ∷ get_field "unit" metric
      ∷ get_field "profile" metric
      ∷ get_field "methodology_version" metric
      ∷ get_field "topology_scope" metric
      ∷ get_field "topology_evidence" metric
      ∷ get_field "implementation_contract" metric
      ∷ get_field "system_execution_contract" metric
      ∷ get_field "storage_contract" metric
      ∷ get_field "status" metric
      ∷ or_else (get_field "reasons" metric) (list nil)
      ∷ get_field "sample_count" metric
      ∷ get_field "target_count" metric
      ∷ get_field "window_count" metric
      ∷ or_else (get_field "windows" metric) (list nil)
      ∷ or_else (get_field "run_ids" metric) (list nil)
      ∷ get_field "latest_observed_at" metric
      ∷ get_field "median" statistics
      ∷ get_field "p10" statistics
      ∷ get_field "p90" statistics
      ∷ get_field "minimum" statistics
      ∷ get_field "maximum" statistics
      ∷ get_field "best" statistics
      ∷ get_field "worst" statistics
      ∷ get_field "relative_spread_percent" statistics
      ∷ get_field "stability" statistics
      ∷ []

  -- The loop over the rows.
  write_observations :
      (observations : Fields)
      → (generated_at : String) → (row_count : ℕ) → (output : String) → List (Fields × Fields)
      → Result String
  unfolding observation_values observation_cell cells_line text_count
  write_observations observations generated_at row_count output [] = ok output
  write_observations observations generated_at row_count output ((group, metric) ∷ rest) =
      let more =
        output
        ++ₛ cells_line py
            (map observation_cell (observation_values observations group metric generated_at)) in
      guard (leb (suc row_count) observation_max_rows)
        (value_error "Provider observation export exceeds the bounded row limit.")
      >> elim (leb (text_count more) observation_max_bytes) [
        | true ↦ write_observations observations generated_at (suc row_count) more rest
        | false ↦ observations_too_large
      ]

  bounded_observations : String → Result String
  unfolding utf8_size
  bounded_observations payload = elim (leb (utf8_size payload) observation_max_bytes) [
    | true ↦ ok payload
    | false ↦ observations_too_large
  ]

  unfoldable pub provider_observation_csv :
      (observations : Fields) → (generated_at : String) → Result String
  unfolding get_field value_eq dictionaries sorted_by observation_rows write_observations
      bounded_observations
  provider_observation_csv observations generated_at =
      guard (value_eq (get_field "version" observations) (str provider_observation_version))
        (value_error "Provider observation export requires the installed projection version.")
      >> (write_observations observations generated_at 0 observation_header
            (observation_rows (sorted_by "id" (dictionaries_of (get_field "groups" observations))))
          >>= λ payload. bounded_observations payload)
