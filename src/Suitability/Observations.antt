-- ===== src/Suitability/Observations.antt =====
-- cloudmark/suitability.py: `_provider_observations`, what is published of the cohorts. The number in a
-- group's id is kept as a number.
use cloud_mark.Prelude.{
  ℕ, suc, Bool, true, false, ◌&&◌, none, some, List, [], ◌∷◌, ◌++◌, String, if◌then◌else◌, ltb, leb,
  length,
}
use cloud_mark.Python.{Result, ok, ◌>>=◌, Platform}
use cloud_mark.Store.Schema.{Run}
use cloud_mark.Suitability.Evidence.{observed_at_of}
use cloud_mark.Suitability.Runs.{is_one_of, insert_id}
use cloud_mark.Suitability.Verdict.{sorted_texts}
use cloud_mark.Suitability.Contracts.{provider_identity_verified}
use cloud_mark.Suitability.Cohorts.{
  Target, CohortKey, place_target, excluded, grouped, add_to_group, sort_groups,
}
use cloud_mark.Suitability.Collecting.{Collected, add_runs, insert_day, day_of}
use cloud_mark.Suitability.MetricCohorts.{
  comparison_min_targets, comparison_min_windows, sort_windows, MetricCohort, sort_builders,
  metric_cohorts,
}

pub data ComparisonStatus : Type 0 where
  sampling_ready partial observational : ComparisonStatus

pub record Group : Type 0 where
  pub index : ℕ
  pub key : CohortKey
  pub comparison_status : ComparisonStatus
  pub rating_status : String
  pub target_ids : List String
  pub windows : List ℕ
  pub observed_suites : List String
  pub criteria : List (String × Bool)
  pub gaps : List String
  pub metric_cohorts : List MetricCohort

run_windows : List (String × Run) → List ℕ
unfolding insert_day
run_windows [] = []
run_windows ((id, run) ∷ rest) =
    let others = run_windows rest in
    elim (observed_at_of run) [ none ↦ others | some t ↦ insert_day (day_of t) others ]

run_suites : List (String × Run) → List String
run_suites [] = []
run_suites ((id, run) ∷ rest) = run.suite ∷ run_suites rest

comparable_suites : List MetricCohort → List String
comparable_suites [] = []
comparable_suites (c ∷ rest) =
    let others = comparable_suites rest in if c.is_comparable then c.suite ∷ others else others

abbrev covers : List String → Bool
covers suites =
    is_one_of suites "compute"
    && is_one_of suites "memory"
    && is_one_of suites "storage"
    && is_one_of suites "network"

abbrev status_of : List String → ComparisonStatus
status_of suites =
    if covers suites
    then sampling_ready
    else if ltb 0 (length suites)
    then partial
    else observational

unfoldable pub group_criteria :
    (identity_verified : Bool) → (peers windows : ℕ) → (suites : List String) → List (String × Bool)
group_criteria identity_verified peers windows suites =
    ("Verified provider identity", identity_verified)
    ∷ ("At least three same-cohort targets", leb comparison_min_targets peers)
    ∷ ("At least three UTC-day windows", leb comparison_min_windows windows)
    ∷ ("Comparable compute, memory, storage, and network cohorts", covers suites)
    ∷ ("Security, reliability, control-plane, and cost evidence", false)
    ∷ []

-- The labels of the criteria that are not satisfied.
unfoldable pub gaps_of : List (String × Bool) → List String
gaps_of [] = []
gaps_of ((label, satisfied) ∷ rest) = if satisfied then gaps_of rest else label ∷ gaps_of rest

unfoldable pub peer_ids_of : List Target → List String
unfolding insert_id
peer_ids_of [] = []
peer_ids_of (t ∷ rest) = insert_id t.id (peer_ids_of rest)

pub record Grouping : Type 0 where
  pub groups : List (CohortKey × List Target)
  pub excluded_targets : List (String × String)

pub record Observations : Type 0 where
  pub groups : List Group
  pub excluded_targets : List (String × String)

module _ (py : Platform) (now : ℕ) where
  -- all(…), which stops at the first peer that fails.
  unfoldable pub identities_verified : List Target → Result Bool
  unfolding provider_identity_verified
  identities_verified [] = ok true
  identities_verified (t ∷ rest) = provider_identity_verified py t.provider >>= λ verified.
      elim verified [ false ↦ ok false | true ↦ identities_verified rest ]

  unfoldable pub collect_peers :
      (peer_ids : List String) → Collected → List Target → Result Collected
  unfolding add_runs
  collect_peers peer_ids c [] = ok c
  collect_peers peer_ids c (t ∷ rest) = do
    more ← add_runs py now peer_ids c t.runs
    collect_peers peer_ids more rest

  unfoldable pub cohort_group : (index : ℕ) → CohortKey × List Target → Result Group
  unfolding peer_ids_of identities_verified collect_peers sort_builders metric_cohorts run_windows
      sort_windows sorted_texts run_suites comparable_suites group_criteria gaps_of
  cohort_group index (key, peers) = do
    let peer_ids = peer_ids_of peers
    identity_verified ← identities_verified peers
    collected ← collect_peers peer_ids (record { runs_by_id = []; builders = [] }) peers
    cohorts ← metric_cohorts identity_verified (sort_builders collected.builders)
    let windows = sort_windows (run_windows collected.runs_by_id)
    let suites = comparable_suites cohorts
    let criteria = group_criteria identity_verified (length peer_ids) (length windows) suites
    ok (record {
      index = index;
      key = key;
      comparison_status = status_of suites;
      rating_status = "not-rated";
      target_ids = sorted_texts peer_ids;
      windows = windows;
      observed_suites = sorted_texts (run_suites collected.runs_by_id);
      criteria = criteria;
      gaps = gaps_of criteria;
      metric_cohorts = cohorts;
    })

  cohort_groups : (index : ℕ) → List (CohortKey × List Target) → Result (List Group)
  unfolding cohort_group
  cohort_groups index [] = ok []
  cohort_groups index (g ∷ rest) = do
    first ← cohort_group index g
    others ← cohort_groups (suc index) rest
    ok (first ∷ others)

  unfoldable pub place_targets : Grouping → List Target → Grouping
  unfolding place_target add_to_group
  place_targets g [] = g
  place_targets g (t ∷ rest) = elim (place_target py now t) [
    | excluded reason ↦
        place_targets (record g { excluded_targets = g.excluded_targets ++ (t.id, reason) ∷ [] })
          rest
    | grouped key ↦ place_targets (record g { groups = add_to_group key t g.groups }) rest
  ]

  -- _provider_observations
  unfoldable pub provider_observations : List Target → Result Observations
  unfolding place_targets sort_groups cohort_groups
  provider_observations targets = do
    let placed = place_targets (record { groups = []; excluded_targets = [] }) targets
    groups ← cohort_groups 1 (sort_groups placed.groups)
    ok (record { groups = groups; excluded_targets = placed.excluded_targets })
