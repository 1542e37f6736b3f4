-- ===== src/Suitability/Fit.antt =====
-- cloudmark/suitability.py: what a verdict says of the evidence.
use cloud_mark.Prelude.{Bool, true, false, some, List, String, ltb, length, ◌≡◌, refl, All}
use cloud_mark.Python.{ok}
use cloud_mark.Suitability.Rules.{Level, at_level, Rule, Requirement}
use cloud_mark.Suitability.Requirements.{Scenario, scenario_requirement}
use cloud_mark.Suitability.Evidence.{Item, find_item}
use cloud_mark.Suitability.Verdict.{
  Check, Verdict, conditional_fit, suitable, satisfies, check_rules, evaluation, evaluate_scenario,
  pass, fail, stale, unavailable, CheckStatus,
}

abbrev pub is_fit : Verdict → Bool
is_fit conditional_fit = true
is_fit suitable = true
is_fit _ = false

-- There is fresh evidence for the rule, and it satisfies the threshold of the level.
abbrev pub IsMet : Level → List (String × Item) → Rule → Type 0
IsMet level evidence rule =
    (item : Item) × ((find_item rule.key evidence ≡ some item)
      × ((item.public_evidence.stale ≡ false)
          × (satisfies rule.operator item.public_evidence.value (at_level rule.thresholds level)
              ≡ true)))

-- The workload has rules and no blockers, and each rule is met.
abbrev pub IsFit : Level → List (String × Item) → Requirement → Type 0
IsFit level evidence definition =
    (length definition.blockers ≡ 0)
    × ((ltb 0 (length definition.rules) ≡ true) × All (IsMet level evidence) definition.rules)

abbrev status_passes : CheckStatus → Bool
status_passes pass = true
status_passes _ = false

abbrev Passes : Check → Type 0
Passes check = status_passes check.status ≡ true

abbrev missing : CheckStatus → Bool
missing status = elim status [ unavailable ↦ true | stale ↦ true | _ ↦ false ]

abbrev failed : CheckStatus → Bool
failed status = elim status [ fail ↦ true | _ ↦ false ]

pub evaluate_scenario-found :
    (scenario : Scenario) (definition : Requirement) (evidence : List (String × Item))
    (level : Level)
    → scenario_requirement scenario.id ≡ some definition
    → evaluate_scenario scenario evidence level
      ≡ ok (evaluation scenario definition (check_rules level evidence definition.rules) level)
unfolding evaluate_scenario
evaluate_scenario-found scenario d evidence level found = rw (evaluate_scenario, found) refl
