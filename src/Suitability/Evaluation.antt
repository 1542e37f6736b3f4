-- ===== src/Suitability/Evaluation.antt =====
-- cloudmark/suitability.py: `evaluate_suitability`, the rating of every target from the stored runs.
use cloud_mark.Prelude.{
  ℕ, Bool, true, false, ◌&&◌, Option, none, some, List, [], ◌∷◌, ◌++◌, String, str_eq,
  if◌then◌else◌, length, select, map,
}
use cloud_mark.Python.{Value, dict, end, is_dict, Result, ok, ◌>>=◌, Platform}
use cloud_mark.Store.Schema.{Run, Agent, is_completed}
use cloud_mark.Campaigns.Contract.{text_lt}
use cloud_mark.Suitability.Rules.{Level, essential, standard, demanding}
use cloud_mark.Suitability.Requirements.{Scenario, scenarios}
use cloud_mark.Suitability.Evidence.{Item, Evidence, inventory_evidence}
use cloud_mark.Suitability.Extraction.{extract_run_evidence}
use cloud_mark.Suitability.Runs.{is_one_of, union_ids, run_targets, run_valid}
use cloud_mark.Suitability.Verdict.{sorted_texts, evaluate_scenario}
use cloud_mark.Suitability.Verdict
use cloud_mark.Suitability.Cohorts.{Target, target_metadata}
use cloud_mark.Suitability.Observations.{
  Group, Observations, group_criteria, gaps_of, provider_observations,
}

abbrev suitability_engine_version : String
suitability_engine_version = "suitability-v1"

-- status == "completed" and isinstance(result, dict)
unfoldable pub has_result : Run → Bool
has_result run = is_completed run.status && elim run.result [ none ↦ false | some v ↦ is_dict v ]

-- What the loop over the runs of one target collects.
pub record Accepted : Type 0 where
  pub evidence : List (String × Item)
  pub rejected : List (String × String)
  pub runs : List Run

abbrev reason_text : Option String → String
reason_text none = "None"
reason_text (some reason) = reason

insert_key : String × Evidence → List (String × Evidence) → List (String × Evidence)
insert_key e [] = e ∷ []
insert_key e (f ∷ rest) = if text_lt f.0 e.0 then f ∷ insert_key e rest else e ∷ f ∷ rest

-- The evidence by key, as it is published.
published : List (String × Item) → List (String × Evidence)
unfolding insert_key
published [] = []
published ((key, item) ∷ rest) = insert_key (key, item.public_evidence) (published rest)

suites_of : List Run → List String
suites_of [] = []
suites_of (run ∷ rest) = run.suite ∷ suites_of rest

pub record RatedTarget : Type 0 where
  pub metadata : Target
  pub evidence : List (String × Evidence)
  pub accepted_runs : ℕ
  pub rejected_runs : List (String × String)
  pub suites : List String
  pub essential_level : List Verdict.Evaluation
  pub standard_level : List Verdict.Evaluation
  pub demanding_level : List Verdict.Evaluation

unfoldable pub evaluate_scenarios :
    Level → List (String × Item) → List Scenario → Result (List Verdict.Evaluation)
unfolding evaluate_scenario
evaluate_scenarios level evidence [] = ok []
evaluate_scenarios level evidence (scenario ∷ rest) = do
  first ← evaluate_scenario scenario evidence level
  others ← evaluate_scenarios level evidence rest
  ok (first ∷ others)

pub record Assessment : Type 0 where
  pub status : String
  pub claim : String
  pub cohort_index : Option ℕ
  pub same_product_targets : ℕ
  pub measurement_windows : ℕ
  pub observed_suites : List String
  pub criteria : List (String × Bool)
  pub gaps : List String

pub record Suitability : Type 0 where
  pub engine_version : String
  pub targets : List (RatedTarget × Assessment)
  pub provider_observations : Observations

-- group_by_target.get(target_id): a later group replaces an earlier one.
unfoldable pub group_of : String → List Group → Option Group
group_of target_id [] = none
group_of target_id (g ∷ rest) = elim (group_of target_id rest) [
  | some h ↦ some h
  | none ↦ if is_one_of g.target_ids target_id then some g else none
]

unfoldable pub assessment : Option Group → Assessment
unfolding group_criteria gaps_of
assessment none =
    let criteria = group_criteria false 0 0 [] in
    record {
      status = "not-rated";
      claim = "Instance observation only; this is not a provider-wide rating.";
      cohort_index = none;
      same_product_targets = 0;
      measurement_windows = 0;
      observed_suites = [];
      criteria = criteria;
      gaps = gaps_of criteria;
    }
assessment (some g) = record {
  status = "not-rated";
  claim = "Instance observation only; this is not a provider-wide rating.";
  cohort_index = some g.index;
  same_product_targets = length g.target_ids;
  measurement_windows = length g.windows;
  observed_suites = g.observed_suites;
  criteria = g.criteria;
  gaps = gaps_of g.criteria;
}

assess_targets : List Group → List RatedTarget → List (RatedTarget × Assessment)
unfolding assessment group_of
assess_targets groups [] = []
assess_targets groups (t ∷ rest) =
    (t, assessment (group_of t.metadata.id groups)) ∷ assess_targets groups rest

module _ (py : Platform) (now : ℕ) where
  -- The targets of all completed runs.
  all_targets : List String → List Run → Result (List String)
  unfolding run_targets union_ids
  all_targets ids [] = ok ids
  all_targets ids (run ∷ rest) = do
    found ← run_targets py run
    all_targets (union_ids ids found) rest

  take_run : (target_id : String) → Accepted → Run → Result Accepted
  unfolding run_targets run_valid extract_run_evidence
  take_run target_id a run = run_targets py run >>= λ targets. elim (is_one_of targets target_id) [
    | false ↦ ok a
    | true ↦
        (run_valid py run >>= λ verdict. elim verdict.0 [
          | false ↦ ok (record a { rejected = a.rejected ++ (run.id, reason_text verdict.1) ∷ [] })
          | true ↦
              (extract_run_evidence py now a.evidence run >>= λ evidence.
              ok (record a { evidence = evidence; runs = a.runs ++ run ∷ [] }))
        ])
  ]

  unfoldable pub take_runs : (target_id : String) → Accepted → List Run → Result Accepted
  unfolding take_run
  take_runs target_id a [] = ok a
  take_runs target_id a (run ∷ rest) = do
    more ← take_run target_id a run
    take_runs target_id more rest

  unfoldable pub rate_target :
      (target_id : String) → Value → (observed_at : Option ℕ) → List Run → Result RatedTarget
  unfolding inventory_evidence take_runs evaluate_scenarios target_metadata published sorted_texts
      suites_of
  rate_target target_id system observed_at completed = do
    inventory ← inventory_evidence now [] system observed_at
    a ← take_runs target_id (record { evidence = inventory; rejected = []; runs = [] }) completed
    at_essential ← evaluate_scenarios essential a.evidence scenarios
    at_standard ← evaluate_scenarios standard a.evidence scenarios
    at_demanding ← evaluate_scenarios demanding a.evidence scenarios
    metadata ← target_metadata py target_id system a.runs
    ok (record {
      metadata = metadata;
      evidence = published a.evidence;
      accepted_runs = length a.runs;
      rejected_runs = a.rejected;
      suites = sorted_texts (suites_of a.runs);
      essential_level = at_essential;
      standard_level = at_standard;
      demanding_level = at_demanding;
    })

  module _ (local_system : Value) (agent_lookup : String → Option Agent) where
    -- The system and the time of observation of a target.
    abbrev system_of : String → Value × Option ℕ
    system_of target_id =
        if str_eq target_id "controller"
        then (local_system, some now)
        else elim (agent_lookup target_id) [
          | none ↦ (dict end, none)
          | some agent ↦ (dict agent.system, agent.last_seen_at)
        ]

    rate_targets : (target_ids : List String) → List Run → Result (List RatedTarget)
    unfolding rate_target
    rate_targets [] completed = ok []
    rate_targets (id ∷ rest) completed = do
      let (system, observed_at) = system_of id
      first ← rate_target id system observed_at completed
      others ← rate_targets rest completed
      ok (first ∷ others)

    -- evaluate_suitability
    unfoldable pub evaluate_suitability : List Run → Result Suitability
    unfolding select has_result all_targets sorted_texts rate_targets provider_observations
        assess_targets
    evaluate_suitability runs = do
      let completed = select has_result runs
      target_ids ← all_targets ("controller" ∷ []) completed
      targets ← rate_targets (sorted_texts target_ids) completed
      observations ← provider_observations py now (map (λ t. t.metadata) targets)
      ok (record {
        engine_version = suitability_engine_version;
        targets = assess_targets observations.groups targets;
        provider_observations = observations;
      })
