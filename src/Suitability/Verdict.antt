-- ===== src/Suitability/Verdict.antt =====
-- cloudmark/suitability.py: `_evaluate_scenario`, the verdict on one workload at one level.
use Prim.Native.String.{◌++◌ as ◌++ₛ◌}
use cloud_mark.Prelude.{
  round_quotient, ℕ, ◌+◌, ◌*◌, Bool, true, false, ◌||◌, Option, none, some, List, [], ◌∷◌, String,
  str_eq, if◌then◌else◌, ltb, ◌==◌, length, select, Float, fraction, pos, float_le, float_same,
  float_zero,
}
use cloud_mark.Python.{Result, raise, ok, key_error}
use cloud_mark.Campaigns.Contract.{text_lt}
use cloud_mark.Suitability.Rules.{
  Operator, at_least, at_most, equals, Level, level_label, at_level, Rule, Requirement,
}
use cloud_mark.Suitability.Requirements.{Scenario, scenario_requirement}
use cloud_mark.Suitability.Evidence.{Evidence, Item, find_item}

pub data CheckStatus : Type 0 where
  unavailable stale pass fail : CheckStatus

pub record Check : Type 0 where
  pub rule : Rule
  pub status : CheckStatus
  pub threshold : Float
  pub evidence : Option Evidence

pub data Verdict : Type 0 where
  insufficient below_requirement conditional_fit suitable : Verdict

unfoldable pub satisfies : Operator → (value threshold : Float) → Bool
satisfies at_least value threshold = float_le threshold value
satisfies at_most value threshold = float_le value threshold
satisfies equals value threshold = float_same value threshold

unfoldable pub check_status : Operator → Float → Option Item → CheckStatus
unfolding satisfies
check_status operator threshold none = unavailable
check_status operator threshold (some item) =
    if item.public_evidence.stale
    then stale
    else if satisfies operator item.public_evidence.value threshold
    then pass
    else fail

abbrev shown : Option Item → Option Evidence
shown none = none
shown (some item) = some item.public_evidence

-- One iteration of the loop over the rules.
unfoldable pub check_rule : Level → List (String × Item) → Rule → Check
unfolding check_status find_item
check_rule level evidence rule = record {
  rule = rule;
  status =
      check_status rule.operator (at_level rule.thresholds level) (find_item rule.key evidence);
  threshold = at_level rule.thresholds level;
  evidence = shown (find_item rule.key evidence);
}

unfoldable pub check_rules : Level → List (String × Item) → List Rule → List Check
unfolding check_rule
check_rules level evidence [] = []
check_rules level evidence (rule ∷ rest) =
    check_rule level evidence rule ∷ check_rules level evidence rest

abbrev pub is_observed : Check → Bool
is_observed check = elim check.status [ pass ↦ true | fail ↦ true | _ ↦ false ]

abbrev pub is_missing : Check → Bool
is_missing check = elim check.status [ unavailable ↦ true | stale ↦ true | _ ↦ false ]

abbrev pub is_failed : Check → Bool
is_failed check = elim check.status [ fail ↦ true | _ ↦ false ]

abbrev pub is_passed : Check → Bool
is_passed check = elim check.status [ pass ↦ true | _ ↦ false ]

-- round(part * 100 / whole, 1)
unfoldable pub percent : (part whole : ℕ) → Float
unfolding round_quotient
percent part whole = fraction (pos (round_quotient (part * 1000) whole)) 9

unfoldable pub coverage : (observed denominator : ℕ) → Float
unfolding percent
coverage observed denominator =
    if denominator == 0 then float_zero else percent observed denominator

unfoldable pub measured : (passed observed : ℕ) → Option Float
unfolding percent
measured passed observed = if observed == 0 then none else some (percent passed observed)

unfoldable pub verdict_of :
    (blockers : List String) → (limitations : List String) → List Check → Verdict
unfolding select
verdict_of blockers limitations checks =
    if ltb 0 (length blockers) || (ltb 0 (length (select is_missing checks)) || length checks == 0)
    then insufficient
    else if ltb 0 (length (select is_failed checks))
    then below_requirement
    else if ltb 0 (length limitations)
    then conditional_fit
    else suitable

abbrev recommendation_of : Verdict → Level → String
recommendation_of insufficient level =
    "More verified evidence is required before this target can be classified."
recommendation_of below_requirement level =
    "The observed target does not meet every " ++ₛ level_label level ++ₛ " hard gate."
recommendation_of conditional_fit level =
    "The target meets all measured "
    ++ₛ level_label level
    ++ₛ " gates, but unimplemented capability evidence limits the claim."
recommendation_of suitable level =
    "The target meets the complete " ++ₛ level_label level ++ₛ " requirement contract."

-- One more text into a sorted list without repetitions.
unfoldable pub insert_text : String → List String → List String
insert_text s [] = s ∷ []
insert_text s (t ∷ rest) =
    if str_eq s t then t ∷ rest else if text_lt s t then s ∷ t ∷ rest else t ∷ insert_text s rest

-- sorted({…})
unfoldable pub sorted_texts : List String → List String
unfolding insert_text
sorted_texts [] = []
sorted_texts (s ∷ rest) = insert_text s (sorted_texts rest)

abbrev run_id_of : Check → List String → List String
run_id_of check rest = elim check.evidence [
  | none ↦ rest
  | some shown ↦ elim shown.run_id [
    | none ↦ rest
    | some id ↦ if str_eq id "" then rest else id ∷ rest
  ]
]

check_run_ids : List Check → List String
check_run_ids [] = []
check_run_ids (check ∷ rest) = run_id_of check (check_run_ids rest)

pub record Evaluation : Type 0 where
  pub id : String
  pub label : String
  pub level : Level
  pub verdict : Verdict
  pub coverage_percent : Float
  pub measured_pass_percent : Option Float
  pub checks : List Check
  pub blockers : List String
  pub limitations : List String
  pub next_actions : List String
  pub recommendation : String
  pub run_ids : List String

unfoldable pub evaluation : Scenario → Requirement → List Check → Level → Evaluation
unfolding verdict_of coverage measured select sorted_texts check_run_ids
evaluation scenario definition checks level =
    let verdict = verdict_of definition.blockers definition.limitations checks in
    let observed_checks = select is_observed checks in
    record {
      id = scenario.id;
      label = scenario.label;
      level = level;
      verdict = verdict;
      coverage_percent =
          coverage (length observed_checks) (length checks + length definition.blockers);
      measured_pass_percent =
          measured (length (select is_passed observed_checks)) (length observed_checks);
      checks = checks;
      blockers = definition.blockers;
      limitations = definition.limitations;
      next_actions = definition.next_actions;
      recommendation = recommendation_of verdict level;
      run_ids = sorted_texts (check_run_ids checks);
    }

-- _evaluate_scenario
unfoldable pub evaluate_scenario : Scenario → List (String × Item) → Level → Result Evaluation
unfolding scenario_requirement check_rules evaluation
evaluate_scenario scenario evidence level = elim (scenario_requirement scenario.id) [
  | none ↦ raise key_error
  | some definition ↦
      ok (evaluation scenario definition (check_rules level evidence definition.rules) level)
]
