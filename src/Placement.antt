-- ===== src/Placement.antt =====
-- cloudmark/topology.py: what the provider metadata of two Agents shows of their placement.
use cloud_mark.Prelude.{
  Bool, false, not, Option, none, some, List, [], ◌∷◌, String, str_eq, if◌then◌else◌, ◌&&◌, ◌||◌,
  select_one, Float, fraction, pos, float_lt, float_zero,
}
use cloud_mark.Python.{
  Value, Fields, dict, end, str, int, get, get_field, find_field, or_else, Result, ok, ◌>>=◌, strip,
  lower, codes, codes_eq, contains, Platform, text_of, float_of,
}
use cloud_mark.Store.Schema.{Agent}

pub data Scope : Type 0 where
  undeclared same_host same_zone cross_zone cross_region public_internet : Scope

-- PAIRING_TOPOLOGY_SCOPES, by its texts.
unfoldable pub parse_scope : String → Option Scope
unfolding str_eq
parse_scope s =
    if str_eq s "undeclared"
    then some undeclared
    else if str_eq s "same-host"
    then some same_host
    else if str_eq s "same-zone"
    then some same_zone
    else if str_eq s "cross-zone"
    then some cross_zone
    else if str_eq s "cross-region"
    then some cross_region
    else if str_eq s "public-internet"
    then some public_internet
    else none

abbrev pub scope_text : Scope → String
scope_text undeclared = "undeclared"
scope_text same_host = "same-host"
scope_text same_zone = "same-zone"
scope_text cross_zone = "cross-zone"
scope_text cross_region = "cross-region"
scope_text public_internet = "public-internet"

pub data Source : Type 0 where
  unavailable advertised_endpoint provider_metadata : Source

-- v.get(key, {}), where v is a dictionary.
abbrev pub field_or_empty : String → Fields → Value
field_or_empty k fs = elim (find_field k fs) [ none ↦ dict end | some v ↦ v ]

abbrev pub one_half : Float
one_half = fraction (pos 1) 1

abbrev pub or_zero : Option Float → Float
or_zero none = float_zero
or_zero (some x) = x

pub record Observation : Type 0 where
  pub scope : Option Scope
  pub source : Source
  pub reasons : List String

module _ (py : Platform) where
  -- str(v or "")
  abbrev pub text_or_empty : Value → String
  text_or_empty v = text_of py (or_else v (str ""))

  -- The name is missing, unknown, or not believed enough.
  unfoldable pub doubtful : String → Float → Bool
  doubtful name confidence =
      str_eq name "" || (codes_eq (lower name) (codes "unknown") || float_lt confidence one_half)

  -- The source says that the metadata is only claimed.
  unfoldable pub claimed_only : String → Bool
  claimed_only source =
      contains (lower source) (codes "unverified") || contains (lower source) (codes "declared")

  -- The provider's fields, if they can be trusted.
  unfoldable pub trusted_provider : Agent → Result (Option Value)
  unfolding text_of float_of get or_else doubtful claimed_only find_field strip
  trusted_provider agent = do
    let provider = field_or_empty "provider" agent.system
    source ← get provider "source"
    name ← get provider "provider"
    confidence ← get provider "confidence"
    let weak =
        doubtful (strip (text_or_empty name))
          (or_zero (float_of py (or_else confidence (int (pos 0)))))
    ok (if weak || claimed_only (text_or_empty source) then none else some provider)

  unfoldable pub global_endpoint : Agent → Bool
  unfolding get_field text_of or_else strip
  global_endpoint agent =
      elim (py.ip_address (strip (text_or_empty (get_field "address" agent.endpoint)))) [
        | none ↦ false
        | some address ↦ address.is_global
      ]

  -- str(provider.get(key) or "").strip()
  unfoldable pub placed_in : Value → String → Result String
  unfolding get text_of or_else strip
  placed_in provider key = do v ← get provider key; ok (strip (text_or_empty v))

  unfoldable pub same_name : String → String → Bool
  same_name a b = codes_eq (lower a) (lower b)

  -- The verdict on the two providers' names, regions and zones.
  unfoldable pub place_observation :
      (target_name generator_name target_region generator_region target_zone
        generator_zone : String)
      → Observation
  unfolding same_name
  place_observation target_name generator_name target_region generator_region target_zone
        generator_zone =
      if not (same_name target_name generator_name)
      then record {
        scope = none;
        source = unavailable;
        reasons =
            "Provider metadata identifies different providers; the actual network path is not proven."
            ∷ [];
      }
      else if str_eq target_region "" || str_eq generator_region ""
      then record {
        scope = none;
        source = unavailable;
        reasons = "Trusted provider metadata does not identify both regions." ∷ [];
      }
      else if not (same_name target_region generator_region)
      then record {
        scope = some cross_region;
        source = provider_metadata;
        reasons = "Trusted metadata identifies different regions." ∷ [];
      }
      else if str_eq target_zone "" || str_eq generator_zone ""
      then record {
        scope = none;
        source = unavailable;
        reasons = "Trusted provider metadata does not identify both zones." ∷ [];
      }
      else if not (same_name target_zone generator_zone)
      then record {
        scope = some cross_zone;
        source = provider_metadata;
        reasons = "Trusted metadata identifies one region and different zones." ∷ [];
      }
      else record {
        scope = some same_zone;
        source = provider_metadata;
        reasons = "Trusted metadata identifies the same provider, region, and zone." ∷ [];
      }

  -- The two trusted providers' regions and zones.
  unfoldable pub compare_places : Value → Value → Result Observation
  unfolding placed_in get text_of place_observation
  compare_places target generator = do
    target_name ← get target "provider"
    generator_name ← get generator "provider"
    target_region ← placed_in target "region"
    generator_region ← placed_in generator "region"
    target_zone ← placed_in target "zone"
    generator_zone ← placed_in generator "zone"
    ok (
        place_observation (text_of py target_name) (text_of py generator_name) target_region
          generator_region target_zone generator_zone)

  -- Without trusted metadata on both sides.
  unfoldable pub untrusted_observation : Agent → Agent → Observation
  unfolding global_endpoint
  untrusted_observation target generator =
      if global_endpoint target && global_endpoint generator
      then record {
        scope = none;
        source = advertised_endpoint;
        reasons =
            "Both peer endpoints are globally routable, but address class alone does not prove public-Internet traversal."
            ∷ [];
      }
      else record {
        scope = none;
        source = unavailable;
        reasons = "Trusted provider metadata is unavailable on one or both Agents." ∷ [];
      }

  unfoldable pub observe_providers :
      Agent → Agent → Option Value → Option Value → Result Observation
  unfolding untrusted_observation compare_places
  observe_providers target generator (some p) (some q) = compare_places p q
  observe_providers target generator _ _ = ok (untrusted_observation target generator)

  unfoldable pub observe_pair : Option Agent → Option Agent → Result Observation
  unfolding trusted_provider observe_providers
  observe_pair (some target) (some generator) = do
    p ← trusted_provider target
    q ← trusted_provider generator
    observe_providers target generator p q
  observe_pair _ _ = ok (record {
    scope = none;
    source = unavailable;
    reasons = "Both Target and Generator Agents are required before topology can be verified." ∷ [];
  })

  abbrev pub has_role : String → Agent → Bool
  has_role role a = str_eq a.role role

  unfoldable pub independent_observation : List Agent → Result Observation
  unfolding observe_pair
  independent_observation agents =
      observe_pair (select_one (has_role "target") agents)
        (select_one (has_role "generator") agents)
