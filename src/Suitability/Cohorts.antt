-- ===== src/Suitability/Cohorts.antt =====
-- cloudmark/suitability.py: the targets that `_provider_observations` groups, the keys of its groups and
-- the samples that it collects for each contract.
use cloud_mark.Prelude.{
  ℕ, Bool, true, false, not, ◌&&◌, ◌||◌, none, some, List, [], ◌∷◌, ◌++◌, String, str_eq,
  if◌then◌else◌, any, float_zero,
}
use cloud_mark.Python.{
  Value, Fields, str, float, dict, end, field, get_field, or_else, get, Result, ok, ◌>>=◌, Platform,
  text_of, strip,
}
use cloud_mark.Store.Schema.{Run}
use cloud_mark.Campaigns.Contract.{text_or, text_lt}
use cloud_mark.Suitability.Evidence.{nested, number, run_is_fresh}

-- What `_target_metadata` gives, with the accepted runs of the target.
pub record Target : Type 0 where
  pub id : String
  pub label : String
  pub provider : Fields
  pub system : Fields
  pub runs : List Run

-- provider, instance type, region and operating system.
pub record CohortKey : Type 0 where
  pub provider : String
  pub instance_type : String
  pub region : String
  pub operating_system : String

abbrev pub key_texts : CohortKey → List String
key_texts k = k.provider ∷ k.instance_type ∷ k.region ∷ k.operating_system ∷ []

-- Equality and order of tuples of texts.
unfoldable pub texts_eq : List String → List String → Bool
texts_eq [] [] = true
texts_eq (s ∷ ss) (t ∷ ts) = str_eq s t && texts_eq ss ts
texts_eq _ _ = false

unfoldable pub texts_lt : List String → List String → Bool
texts_lt [] [] = false
texts_lt [] (t ∷ ts) = true
texts_lt (s ∷ ss) [] = false
texts_lt (s ∷ ss) (t ∷ ts) = if str_eq s t then texts_lt ss ts else text_lt s t

-- Either a key, or the reason for which the target is left out.
pub data Placing : Type 0 where
  excluded : (reason : String) → Placing
  grouped : (key : CohortKey) → Placing

module _ (py : Platform) where
  -- _target_metadata
  unfoldable pub target_metadata : (target_id : String) → Value → List Run → Result Target
  unfolding get get_field or_else text_of nested number
  target_metadata target_id system runs = do
    found_inventory ← get system "inventory"
    found_provider ← get system "provider"
    let inventory = or_else found_inventory (dict end)
    let provider = or_else found_provider (dict end)
    hostname ← get inventory "hostname"
    name ← get provider "provider"
    confidence ← get provider "confidence"
    source ← get provider "source"
    region ← get provider "region"
    zone ← get provider "zone"
    instance_type ← get provider "instance_type"
    ok (record {
      id = target_id;
      label = text_or py target_id hostname;
      provider = field "name" (str (text_or py "Unknown" name)) (
          field "confidence"
            (or_else (elim (number confidence) [ none ↦ float float_zero | some x ↦ float x ])
              (float float_zero))
            (field "source" (str (text_or py "unavailable" source)) (
              field "region" region
                (field "zone" zone (field "instance_type" instance_type end)))));
      system =
          field "os"
            (or_else (nested inventory ("os" ∷ "distribution" ∷ []))
              (nested inventory ("os" ∷ "system" ∷ [])))
            (field "cpu" (nested inventory ("cpu" ∷ "model" ∷ [])) (
              field "logical_cores" (nested inventory ("cpu" ∷ "logical_cores" ∷ []))
                (field "memory_bytes" (nested inventory ("memory" ∷ "total_bytes" ∷ [])) end)));
      runs = runs;
    })

  -- The first tests of the loop over the targets.
  unfoldable pub place_target : (now : ℕ) → Target → Placing
  unfolding run_is_fresh get_field or_else text_of strip
  place_target now target =
      let provider_name = strip (text_or py "" (get_field "name" target.provider)) in
      let instance_type = strip (text_or py "" (get_field "instance_type" target.provider)) in
      if not (any (run_is_fresh now) target.runs)
      then excluded "No fresh valid benchmark evidence is available."
      else if str_eq provider_name "" || str_eq provider_name "Unknown"
      then excluded "Provider identity is unavailable."
      else if str_eq instance_type ""
      then excluded "Product or SKU identity is unavailable."
      else grouped (record {
        provider = provider_name;
        instance_type = instance_type;
        region = text_or py "unspecified-region" (get_field "region" target.provider);
        operating_system = text_or py "unspecified-os" (get_field "os" target.system);
      })

-- grouped.setdefault(key, []).append(target)
unfoldable pub add_to_group :
    CohortKey → Target → List (CohortKey × List Target) → List (CohortKey × List Target)
unfolding texts_eq
add_to_group key target [] = (key, target ∷ []) ∷ []
add_to_group key target ((k, peers) ∷ rest) =
    if texts_eq (key_texts k) (key_texts key)
    then (k, peers ++ target ∷ []) ∷ rest
    else (k, peers) ∷ add_to_group key target rest

insert_group :
    CohortKey × List Target → List (CohortKey × List Target) → List (CohortKey × List Target)
unfolding texts_lt
insert_group g [] = g ∷ []
insert_group g (h ∷ rest) =
    if texts_lt (key_texts h.0) (key_texts g.0) then h ∷ insert_group g rest else g ∷ h ∷ rest

-- sorted(grouped.items()): no two keys are equal.
unfoldable pub sort_groups : List (CohortKey × List Target) → List (CohortKey × List Target)
unfolding insert_group
sort_groups [] = []
sort_groups (g ∷ rest) = insert_group g (sort_groups rest)

pub record ContractKey : Type 0 where
  pub metric_key : String
  pub profile : String
  pub methodology : String
  pub unit : String
  pub topology_scope : String
  pub topology_evidence : String
  pub implementation_contract : String
  pub system_execution_contract : String
  pub storage_contract : String

abbrev pub contract_texts : ContractKey → List String
contract_texts k =
    k.metric_key ∷ k.profile ∷ k.methodology ∷ k.unit ∷ k.topology_scope ∷ k.topology_evidence
    ∷ k.implementation_contract ∷ k.system_execution_contract ∷ k.storage_contract ∷ []
