-- ===== src/Topology.antt =====
-- cloudmark/topology.py: what a pairing session declares about its network path, against what the
-- provider metadata of the two Agents shows.
pub mod Evidence
pub mod Placed
use cloud_mark.Prelude.{
  ℕ, Bool, true, false, not, Option, none, some, List, [], ◌∷◌, ◌++◌, String, str_eq, if◌then◌else◌,
  ◌&&◌, ◌||◌, select_one, any, is_some, Float, fraction, pos, float_lt, float_zero, ◌≡◌,
}
use cloud_mark.Python.{
  Value, Fields, dict, end, str, int, null, field, get, get_field, find_field, or_else, truthy,
  Result, ok, raise, ◌>>=◌, ◌>>◌, Exception, strip, lower, codes, codes_eq, contains, Platform,
  text_of, float_of,
}
use Prim.Native.String.{◌++◌ as ◌++ₛ◌}
use cloud_mark.Store.Schema.{Agent}
use cloud_mark.Placement.{
  Scope, parse_scope, scope_text, Source, Observation, has_role, independent_observation,
  undeclared, same_host, same_zone, cross_zone, cross_region, public_internet, unavailable,
}

pub data Verification : Type 0 where
  pending no_evidence derived compatible confirmed contradicted : Verification

pub record Assessment : Type 0 where
  pub scope : Scope
  pub source : String
  pub status : Verification
  pub observed_scope : Option Scope
  pub observed_source : Source
  pub reasons : List String

module _ (py : Platform) where
  -- The declared scope and its source; a scope outside the fixed set counts as undeclared.
  unfoldable pub declared : Fields → Scope × String
  unfolding get_field or_else text_of parse_scope
  declared topology =
      let scope = text_of py (or_else (get_field "scope" topology) (str "undeclared")) in
      let source = text_of py (
        or_else (get_field "source" topology)
          (str (if str_eq scope "undeclared" then "unavailable" else "operator-declared"))) in
      elim (parse_scope scope) [ none ↦ (undeclared, "unavailable") | some s ↦ (s, source) ]

  eq_scope : Scope → Scope → Bool
  eq_scope undeclared undeclared = true
  eq_scope same_host same_host = true
  eq_scope same_zone same_zone = true
  eq_scope cross_zone cross_zone = true
  eq_scope cross_region cross_region = true
  eq_scope public_internet public_internet = true
  eq_scope _ _ = false

  abbrev pub both_present : List Agent → Bool
  both_present agents = any (has_role py "target") agents && any (has_role py "generator") agents

  -- The status against one observed scope, and the reason that it adds.
  unfoldable pub against : Scope → Scope → Verification × List String
  unfolding eq_scope
  against scope observed =
      if eq_scope scope undeclared
      then (derived, [])
      else if eq_scope scope public_internet
      then (
        compatible,
        "Placement metadata does not prove whether the benchmark path traverses the public Internet."
            ∷ [],
      )
      else if eq_scope scope observed
      then (confirmed, [])
      else if eq_scope scope same_host && eq_scope observed same_zone
      then (
        compatible,
        "Provider metadata cannot distinguish same-host from same-zone placement." ∷ [],
      )
      else (
        contradicted,
        ("The declared "
              ++ₛ scope_text scope
              ++ₛ " scope conflicts with independently observed "
              ++ₛ scope_text observed
              ++ₛ " evidence.")
            ∷ [],
      )

  verify : Scope → Option Scope → Verification × List String
  unfolding against
  verify scope none = (no_evidence, [])
  verify scope (some observed) = against scope observed

  unfoldable pub assessed : Scope × String → Bool → Observation → Assessment
  unfolding verify
  assessed (scope, source) both seen =
      let (status, added) = if both then verify scope seen.scope else (pending, []) in
      record {
        scope = scope;
        source = source;
        status = status;
        observed_scope = seen.scope;
        observed_source = seen.source;
        reasons = seen.reasons ++ added;
      }

  unfoldable pub assess_pairing_topology : Fields → List Agent → Result Assessment
  unfolding declared independent_observation assessed
  assess_pairing_topology topology agents = do
    seen ← independent_observation py agents
    ok (assessed (declared topology) (both_present agents) seen)
