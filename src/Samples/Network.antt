-- ===== src/Samples/Network.antt =====
-- Worked examples of the pairing topology, the sessions and the pairs.
use cloud_mark.Prelude.{select, some, [], ◌∷◌, ◌≡◌, refl, true, str_eq, select_one, any, ◌&&◌}
use cloud_mark.Python.{contains, lower, codes_eq, Fields, str, field, end, ok}
use cloud_mark.Store.Pairing.{SessionView, get_session}
use cloud_mark.Store.Pairing.Readiness.{is_live, get_session-ready}
use cloud_mark.Topology.{Assessment, confirmed, assess_pairing_topology}
use cloud_mark.Placement.{
  Observation, cross_zone, provider_metadata, observe_pair, independent_observation,
}
use cloud_mark.Topology.Evidence.{
  observe_pair-sym, independent_observation-IsBacked, IsBacked, IsJudged,
  assess_pairing_topology-Means,
}
use cloud_mark.Distributed.{validate_pair}
use cloud_mark.Distributed.Pairs.{IsPair, validate_pair-IsPair}
use cloud_mark.Samples.{platform, controller, target, generator}

abbrev observation : Observation
observation = record {
  scope = some cross_zone;
  source = provider_metadata;
  reasons = "Trusted metadata identifies one region and different zones." ∷ [];
}

abbrev topology : Fields
topology = field "scope" (str "cross-zone") (field "source" (str "operator") end)

abbrev assessment : Assessment
assessment = record {
  scope = cross_zone;
  source = "operator";
  status = confirmed;
  observed_scope = some cross_zone;
  observed_source = provider_metadata;
  reasons = "Trusted metadata identifies one region and different zones." ∷ [];
}

observe_pair-sym_example : observe_pair platform (some generator) (some target) ≡ ok observation
unfolding observe_pair str_eq codes_eq lower contains
observe_pair-sym_example = observe_pair-sym platform target generator observation refl

independent_observation_example : IsBacked platform (target ∷ generator ∷ []) observation cross_zone
unfolding independent_observation select_one str_eq codes_eq lower contains
independent_observation_example =
    independent_observation-IsBacked platform (target ∷ generator ∷ []) observation cross_zone refl
      refl

assess_pairing_topology_example : IsJudged platform topology (target ∷ generator ∷ []) assessment
unfolding assess_pairing_topology select_one codes_eq lower contains
assess_pairing_topology_example =
    assess_pairing_topology-Means platform topology (target ∷ generator ∷ []) assessment refl

abbrev view : SessionView
view = record {
  id = "s1";
  label = "pair";
  ready = true;
  created_at = 1;
  expires_at = "later";
  topology = topology;
  agents = target ∷ generator ∷ [];
}

get_session-ready_example : view.ready ≡ (
    any (is_live 60 "s1" "target") controller.agents
    && any (is_live 60 "s1" "generator") controller.agents)
unfolding get_session select_one str_eq select
get_session-ready_example = get_session-ready 60 controller "s1" view refl

validate_pair-IsPair_example : IsPair platform 60 "s1" controller view target generator
unfolding validate_pair select_one select codes_eq lower contains
validate_pair-IsPair_example =
    validate_pair-IsPair platform 60 "s1" ("iperf3" ∷ []) ("iperf3" ∷ []) controller view assessment
      target generator refl
