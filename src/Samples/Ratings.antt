-- ===== src/Samples/Ratings.antt =====
-- Worked examples of the ratings: a storage workload, a percentile, and a group of one target.
use cloud_mark.Prelude.{
  nearest, nan, float_lt, zero, suc, str_eq, true, false, none, some, List, [], ◌∷◌, String, ◌≡◌,
  refl, fraction, pos, Float, ℕ, float_zero,
}
use cloud_mark.Python.{str, ok, raise, Result}
use cloud_mark.Suitability.Rules.{essential, demanding}
use cloud_mark.Suitability.Requirements.{Scenario}
use cloud_mark.Suitability.Evidence.{Item, find_item, put_all}
use cloud_mark.Suitability.Verdict.{Evaluation, evaluate_scenario, insufficient}
use cloud_mark.Suitability.Percentages.{IsPercentage, IsMeasured, evaluate_scenario-IsPercentage}
use cloud_mark.Suitability.Best.{IsBest, put_all-IsBest}
use cloud_mark.Suitability.Statistics.{percentile}

abbrev item : (value rank observed_at : ℕ) → Item
item value rank observed_at = record {
  public_evidence = record {
    value = fraction (pos value) 0;
    unit = "B/s";
    source = "storage";
    run_id = some "r1";
    profile = some "storage-standard";
    methodology_version = str "storage-v1";
    observed_at = some observed_at;
    quality = "standard";
    stale = false;
  };
  rank = rank;
}

abbrev puts : List (String × Item)
puts = ("k", item 7 1 5) ∷ ("k", item 9 2 4) ∷ ("j", item 1 2 9) ∷ []

put_all-IsBest_example : IsBest "k" puts (find_item "k" (put_all [] puts))
put_all-IsBest_example = put_all-IsBest "k" puts

abbrev backup : Scenario
backup = record {
  id = "storage-backup";
  label = "Storage & Backup";
  status = "available";
  primary = "storage";
  coverage = "Block storage performance";
}

abbrev backup_evidence : List (String × Item)
backup_evidence =
    ("storage.sequential_read_bps", item 900000000 2 5)
    ∷ ("storage.sequential_write_bps", item 900000000 2 5)
    ∷ ("storage.cleanup_verified", item 1 2 5)
    ∷ []

abbrev evaluated : Result Evaluation → Evaluation
evaluated (ok e) = e
evaluated (raise x) = record {
  id = "";
  label = "";
  level = essential;
  verdict = insufficient;
  coverage_percent = float_zero;
  measured_pass_percent = none;
  checks = [];
  blockers = [];
  limitations = [];
  next_actions = [];
  recommendation = "";
  run_ids = [];
}

abbrev at_essential : Evaluation
at_essential = evaluated (evaluate_scenario backup backup_evidence essential)

abbrev at_demanding : Evaluation
at_demanding = evaluated (evaluate_scenario backup backup_evidence demanding)

returned_demanding : evaluate_scenario backup backup_evidence demanding ≡ ok at_demanding
unfolding evaluate_scenario str_eq
returned_demanding = refl

evaluate_scenario-IsPercentage_example :
    IsPercentage at_demanding.coverage_percent × IsMeasured at_demanding.measured_pass_percent
evaluate_scenario-IsPercentage_example =
    evaluate_scenario-IsPercentage backup backup_evidence demanding at_demanding returned_demanding

fourteen : ℕ → List Float
unfolding nearest
fourteen zero = []
fourteen (suc n) = nearest 1451 100 ∷ fourteen n

-- Ten samples of 14.51: the interpolation is a float below the least of them.
rounds_below :
    float_lt
      (elim (percentile (fourteen 10) (nearest 1 10)) [ none ↦ nan | some x ↦ x ])
      (nearest 1451 100)
    ≡ true
unfolding percentile nearest fourteen
rounds_below = refl
