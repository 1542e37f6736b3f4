-- ===== src/Suitability/MetricCohorts.antt =====
-- cloudmark/suitability.py: `_provider_observations`, the cohort of one contract.
use cloud_mark.Prelude.{
  ℕ, Bool, true, false, not, Option, none, some, List, [], ◌∷◌, ◌++◌, String, str_eq, if◌then◌else◌,
  select_one, nearest, fraction, pos, Float, ltb, length, ◌==◌,
}
use Prim.Native.String.{◌++◌ as ◌++ₛ◌}
use cloud_mark.Python.{Result, raise, ok, ◌>>=◌, key_error, index_error}
use cloud_mark.Suitability.Metrics.{Metric, Direction, higher, lower, comparison_metrics}
use cloud_mark.Suitability.Statistics.{percentile, Stability, stability}
use cloud_mark.Suitability.Candidates.{maximum_from, minimum_from}
use cloud_mark.Suitability.Cohorts.{ContractKey, contract_texts, texts_lt}
use cloud_mark.Suitability.Collecting.{Builder}

abbrev pub comparison_min_samples : ℕ
comparison_min_samples = 9

abbrev pub comparison_min_targets : ℕ
comparison_min_targets = 3

abbrev pub comparison_min_windows : ℕ
comparison_min_windows = 3

abbrev pub reason_if : Bool → String → List String
reason_if true reason = reason ∷ []
reason_if false reason = []

-- The reasons for which a metric cohort is not comparable.
unfoldable pub cohort_reasons :
    (identity_verified : Bool) → (topology_scope topology_evidence : String) → Builder → List String
cohort_reasons identity_verified topology_scope topology_evidence b =
    reason_if (not identity_verified) "Provider identity is not independently verified."
    ++ reason_if (ltb (length b.values) comparison_min_samples) "At least 9 samples are required."
    ++ reason_if (ltb (length b.target_ids) comparison_min_targets)
        "At least 3 targets are required."
    ++ reason_if (ltb (length b.windows) comparison_min_windows)
        "At least 3 UTC-day windows are required."
    ++ (if str_eq topology_evidence "contradicted"
        then "Paired benchmark topology evidence contradicts the operator declaration." ∷ []
        else reason_if (str_eq topology_scope "undeclared")
            "Paired benchmark topology is not declared.")
    ++ reason_if (not b.implementation_verified)
        "Database engine implementation or server version evidence is unavailable."
    ++ reason_if (not b.system_execution_verified)
        "Compute or memory execution boundary and tool evidence is unavailable or incomplete."
    ++ reason_if (not b.storage_contract_verified)
        "Storage filesystem, block-device, or tool contract evidence is unavailable."

pub record Statistics : Type 0 where
  pub median : Float
  pub p10 : Float
  pub p90 : Float
  pub minimum : Float
  pub maximum : Float
  pub best : Float
  pub worst : Float
  pub relative_spread_percent : Option Float
  pub stability : Stability

abbrev pub or_index_error : Option Float → Result Float
or_index_error none = raise index_error
or_index_error (some x) = ok x

abbrev best_of : Direction → (minimum maximum : Float) → Float
best_of higher minimum maximum = maximum
best_of lower minimum maximum = minimum

abbrev worst_of : Direction → (minimum maximum : Float) → Float
worst_of higher minimum maximum = minimum
worst_of lower minimum maximum = maximum

unfoldable pub statistics_of : Direction → List Float → Result Statistics
unfolding percentile stability nearest
statistics_of direction [] = raise index_error
statistics_of direction (x ∷ xs) = do
  let values = x ∷ xs
  median ← or_index_error (percentile values (fraction (pos 1) 1))
  p10 ← or_index_error (percentile values (nearest 1 10))
  p90 ← or_index_error (percentile values (nearest 9 10))
  let minimum = minimum_from x xs
  let maximum = maximum_from x xs
  let (relative_spread, verdict) = stability values median p10 p90
  ok (record {
    median = median;
    p10 = p10;
    p90 = p90;
    minimum = minimum;
    maximum = maximum;
    best = best_of direction minimum maximum;
    worst = worst_of direction minimum maximum;
    relative_spread_percent = relative_spread;
    stability = verdict;
  })

latest_from : ℕ → List ℕ → ℕ
latest_from t [] = t
latest_from t (u ∷ rest) = latest_from (if ltb t u then u else t) rest

abbrev latest : List ℕ → Option ℕ
latest [] = none
latest (t ∷ rest) = some (latest_from t rest)

insert_window : ℕ → List ℕ → List ℕ
insert_window w [] = w ∷ []
insert_window w (v ∷ rest) = if ltb v w then v ∷ insert_window w rest else w ∷ v ∷ rest

unfoldable pub sort_windows : List ℕ → List ℕ
unfolding insert_window
sort_windows [] = []
sort_windows (w ∷ rest) = insert_window w (sort_windows rest)

insert_run_id : String → List String → List String
unfolding texts_lt
insert_run_id s [] = s ∷ []
insert_run_id s (t ∷ rest) =
    if texts_lt (t ∷ []) (s ∷ []) then t ∷ insert_run_id s rest else s ∷ t ∷ rest

-- sorted(run_ids), which keeps what is equal.
unfoldable pub sort_run_ids : List String → List String
unfolding insert_run_id
sort_run_ids [] = []
sort_run_ids (s ∷ rest) = insert_run_id s (sort_run_ids rest)

join_bars : List String → String
join_bars [] = ""
join_bars (s ∷ []) = s
join_bars (s ∷ t ∷ rest) = s ++ₛ "|" ++ₛ join_bars (t ∷ rest)

-- metric_key.split(".", 1)[0]
suite_prefix : String → String
suite_prefix String.[] = String.[]
suite_prefix (String.◌∷◌ c s) =
    if str_eq (String.◌∷◌ c String.[]) "." then String.[] else String.◌∷◌ c (suite_prefix s)

pub record MetricCohort : Type 0 where
  pub contract_id : String
  pub contract : ContractKey
  pub label : String
  pub suite : String
  pub direction : Direction
  pub is_comparable : Bool
  pub reasons : List String
  pub sample_count : ℕ
  pub target_count : ℕ
  pub window_count : ℕ
  pub windows : List ℕ
  pub run_ids : List String
  pub latest_observed_at : Option ℕ
  pub statistics : Statistics

abbrev pub metric_of : String → Result Metric
metric_of key = elim (select_one (λ m. str_eq m.key key) comparison_metrics) [
  | none ↦ raise key_error
  | some m ↦ ok m
]

unfoldable pub metric_cohort :
    (identity_verified : Bool) → ContractKey × Builder → Result MetricCohort
unfolding comparison_metrics select_one cohort_reasons statistics_of sort_windows sort_run_ids
    join_bars suite_prefix latest_from
metric_cohort identity_verified (key, b) = do
  metric ← metric_of key.metric_key
  statistics ← statistics_of metric.direction b.values
  let reasons = cohort_reasons identity_verified key.topology_scope key.topology_evidence b
  ok (record {
    contract_id = join_bars (contract_texts key);
    contract = key;
    label = metric.label;
    suite = suite_prefix key.metric_key;
    direction = metric.direction;
    is_comparable = length reasons == 0;
    reasons = reasons;
    sample_count = length b.values;
    target_count = length b.target_ids;
    window_count = length b.windows;
    windows = sort_windows b.windows;
    run_ids = sort_run_ids b.run_ids;
    latest_observed_at = latest b.observed_at;
    statistics = statistics;
  })

unfoldable pub insert_builder :
    ContractKey × Builder → List (ContractKey × Builder) → List (ContractKey × Builder)
unfolding texts_lt
insert_builder b [] = b ∷ []
insert_builder b (c ∷ rest) =
    if texts_lt (contract_texts c.0) (contract_texts b.0)
    then c ∷ insert_builder b rest
    else b ∷ c ∷ rest

-- sorted(metric_builders.items()): no two keys are equal.
unfoldable pub sort_builders : List (ContractKey × Builder) → List (ContractKey × Builder)
unfolding insert_builder
sort_builders [] = []
sort_builders (b ∷ rest) = insert_builder b (sort_builders rest)

unfoldable pub metric_cohorts :
    (identity_verified : Bool) → List (ContractKey × Builder) → Result (List MetricCohort)
unfolding metric_cohort
metric_cohorts identity_verified [] = ok []
metric_cohorts identity_verified (b ∷ rest) = do
  first ← metric_cohort identity_verified b
  others ← metric_cohorts identity_verified rest
  ok (first ∷ others)
