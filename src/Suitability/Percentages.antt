-- ===== src/Suitability/Percentages.antt =====
-- cloudmark/suitability.py: the percentages of an evaluation lie between 0 and 100.
use cloud_mark.Prelude.{
  round_quotient, leb→le, ℕ, zero, suc, ◌+◌, ◌*◌, ◌/◌, ◌≤◌, ◌<◌, Bool, true, false, Option, none,
  some, List, [], ◌∷◌, String, length, select, ◌==◌, ◌≡◌, refl, sym, ◌∙◌, subst, arith, inl, inr,
  Bool-cases, Option-cases, Float, float_le, float_zero, fraction, pos, leb,
}
use cloud_mark.Python.{raise, ok, ok_injective, key_error}
use native.Mathlib.Nat.{div-le_of_le-mul, mod-add-div', mul-le-mul_right, mod-lt}
use cloud_mark.Suitability.Rules.{Level, Requirement}
use cloud_mark.Suitability.Requirements.{Scenario, scenario_requirement}
use cloud_mark.Suitability.Evidence.{Item}
use cloud_mark.Suitability.Verdict.{
  Check, Evaluation, evaluate_scenario, percent, coverage, measured, evaluation, check_rules,
  is_observed, is_passed,
}
use cloud_mark.Suitability.Fit.{evaluate_scenario-found}

-- A number between 0 and 100.
abbrev pub IsPercentage : Float → Type 0
IsPercentage x = (float_le float_zero x ≡ true) × (float_le x (fraction (pos 100) 0) ≡ true)

round_quotient-le : (n d k : ℕ) → 0 < d → n ≤ k * d → round_quotient n d ≤ k
unfolding round_quotient
round_quotient-le n d k p h = elim (Bool-cases (leb k (n / d))) [
  | inl reached ↦
      let most : n / d ≤ k = div-le_of_le-mul d (omega arith) in
      ground (arith, mod-add-div' n d, mul-le-mul_right d (leb→le k (n / d) reached))
  | inr before ↦ ground (arith, mod-lt 2 {m = 2} (omega arith))
]

percent-IsPercentage :
    (part whole : ℕ) → 0 < whole → part ≤ whole → IsPercentage (percent part whole)
unfolding percent
percent-IsPercentage part whole p h =
    let bound = round_quotient-le (part * 1000) whole 1000 p (omega arith) in
    (ground arith, ground arith)

length-select-le :
    {A : Type 0} (test : A → Bool) (xs : List A) → length (select test xs) ≤ length xs
unfolding select
length-select-le test [] = omega arith
length-select-le test (x ∷ xs) = ground (arith, length-select-le test xs)

nonzero : (n : ℕ) → (suc n == 0) ≡ false
nonzero n = ground arith

coverage-IsPercentage : (part whole : ℕ) → part ≤ whole → IsPercentage (coverage part whole)
unfolding coverage
coverage-IsPercentage part zero h = (refl, refl)
coverage-IsPercentage part (suc w) h =
    rw (nonzero w) (percent-IsPercentage part (suc w) (omega arith) h)

-- What is known of the measured percentage, where there is one.
abbrev pub IsMeasured : Option Float → Type 0
IsMeasured none = Unit
IsMeasured (some x) = IsPercentage x

measured-IsMeasured : (part whole : ℕ) → part ≤ whole → IsMeasured (measured part whole)
unfolding measured
measured-IsMeasured part zero h = tt
measured-IsMeasured part (suc w) h =
    rw (nonzero w) (percent-IsPercentage part (suc w) (omega arith) h)

evaluation-IsPercentage :
    (scenario : Scenario) (d : Requirement) (checks : List Check) (level : Level)
    → IsPercentage (evaluation scenario d checks level).coverage_percent
      × IsMeasured (evaluation scenario d checks level).measured_pass_percent
unfolding evaluation
evaluation-IsPercentage scenario d checks level = (
  coverage-IsPercentage (length (select is_observed checks)) (length checks + length d.blockers)
      (omega (arith, length-select-le is_observed checks)),
  measured-IsMeasured (length (select is_passed (select is_observed checks)))
      (length (select is_observed checks)) (length-select-le is_passed (select is_observed checks)),
)

-- The published percentages of an evaluation lie between 0 and 100, the coverage always, and the share of
-- passed checks where anything was observed.
pub evaluate_scenario-IsPercentage :
    (scenario : Scenario) (evidence : List (String × Item)) (level : Level) (e : Evaluation)
    → evaluate_scenario scenario evidence level ≡ ok e
    → IsPercentage e.coverage_percent × IsMeasured e.measured_pass_percent
unfolding evaluate_scenario evaluation
evaluate_scenario-IsPercentage scenario evidence level e returned =
    elim (Option-cases (scenario_requirement scenario.id)) [
      | inl none_found ↦
          let failed : evaluate_scenario scenario evidence level ≡ raise key_error =
            rw (evaluate_scenario, none_found) refl in
          let no : ⊥ = cc in absurd no
      | inr (d, found) ↦
          subst (λ z. IsPercentage z.coverage_percent × IsMeasured z.measured_pass_percent)
            (ok_injective
              (sym (evaluate_scenario-found scenario d evidence level found) ∙ returned))
            (evaluation-IsPercentage scenario d (check_rules level evidence d.rules) level)
    ]
