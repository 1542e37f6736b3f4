-- ===== src/Samples/Listed.antt =====
-- A worked example of the table cost_observations: two calls store one observation, and it is exported.
use cloud_mark.Prelude.{ℕ, List, [], ◌∷◌, length, str_eq, ◌≡◌, refl, pos, map}
use cloud_mark.Python.{dict}
use cloud_mark.Store.Schema.{empty}
use cloud_mark.Store.Costs.{list_cost_observations, create_cost_observation}
use cloud_mark.Store.Costs.Immutable.{Extends, run_calls-Extends}
use cloud_mark.Store.Tasks.Calls.{Call, creates_cost_observation, run_calls, step}
use cloud_mark.Cost.Observation.{build_cost_observation}
use cloud_mark.Cost.Export.{cost_observation_csv}
use cloud_mark.Cost.Serving.{IsBuilt, IsServed, cost_observation_csv-IsServed}
use cloud_mark.Samples.{platform, controller}
use cloud_mark.Samples.Costs.{observation, request, system, returned_observation}

built : IsBuilt platform observation
built = record {
  observation_id = "o1";
  request = request;
  target_id = "a1";
  system = system;
  now = 9;
  returned = returned_observation;
}

-- The second call is refused, since the id is taken.
abbrev calls : List (ℕ × Call)
calls = (9, creates_cost_observation observation) ∷ (10, creates_cost_observation observation) ∷ []

stored_once : length (list_cost_observations (pos 5) (run_calls (λ v. "1") calls controller)) ≡ 1
unfolding list_cost_observations run_calls str_eq step create_cost_observation
    build_cost_observation
stored_once = refl

run_calls-Extends_example :
    Extends
      (IsBuilt platform)
      controller.cost_observations
      (run_calls (λ v. "1") calls controller).cost_observations
run_calls-Extends_example =
    run_calls-Extends (IsBuilt platform) (λ v. "1") calls controller (built, (built, tt))

cost_observation_csv-IsServed_example : IsServed (
    cost_observation_csv platform
      (map dict (list_cost_observations (pos 5) (run_calls (λ v. "1") calls empty))))
cost_observation_csv-IsServed_example =
    cost_observation_csv-IsServed platform (λ v. "1") calls (pos 5) (built, (built, tt))
