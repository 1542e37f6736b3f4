-- ===== src/Topology/Evidence.antt =====
-- What a topology verdict rests on.
use cloud_mark.Prelude.{
  subst, sym, ap, ◌∙◌, ◌↔◌, Bool, true, false, Option, none, some, List, String, select_one, ◌≡◌,
  ◌≢◌, refl, arith, inl, inr, ◌⊎◌, Option-cases,
}
use cloud_mark.Python.{
  ok_injective, Value, Fields, dict, get, get-dict, ok, >>=-eq-ok, codes_eq-sym, lower, Platform,
  text_of, or_else, get_field, str,
}
use cloud_mark.Store.Schema.{Agent}
use cloud_mark.Topology.{
  assessed, Verification, pending, no_evidence, derived, compatible, confirmed, contradicted,
  Assessment, assess_pairing_topology, against, verify, both_present, declared,
}
use cloud_mark.Placement.{
  place_observation, Scope, undeclared, same_host, same_zone, cross_zone, cross_region,
  public_internet, Observation, trusted_provider, compare_places, observe_providers, observe_pair,
  provider_metadata, parse_scope, untrusted_observation, independent_observation, has_role,
  placed_in, same_name,
}
use cloud_mark.Topology.Placed.{IsTrusted, provider-IsTrusted, IsPlaced, compare_places-IsPlaced}

module _ (py : Platform) where
  same_name-sym : (a b : String) → same_name py a b ≡ same_name py b a
  unfolding same_name
  same_name-sym a b = codes_eq-sym (lower a) (lower b)

  place_observation-sym :
      (a b c d e f : String) → place_observation py a b c d e f ≡ place_observation py b a d c f e
  unfolding place_observation
  place_observation-sym a b c d e f =
      ground (arith, same_name-sym a b, same_name-sym c d, same_name-sym e f)

  compare_dicts-sym :
      (fs gs : Fields) (o : Observation)
      → compare_places py (dict fs) (dict gs) ≡ ok o
      → compare_places py (dict gs) (dict fs) ≡ ok o
  unfolding compare_places placed_in get
  compare_dicts-sym fs gs o e = rw place_observation-sym e

  compare_places-sym :
      (p q : Value) (o : Observation) → compare_places py p q ≡ ok o → compare_places py q p ≡ ok o
  unfolding compare_places
  compare_places-sym p q o e =
      let (_, first, rest) = >>=-eq-ok (get p "provider") _ e in
      let (_, second, _) = >>=-eq-ok (get q "provider") _ rest in
      let (fs, is_p) = get-dict p "provider" first in
      let (gs, is_q) = get-dict q "provider" second in
      rw (is_p, is_q) (compare_dicts-sym fs gs o (rw (is_p, is_q) at e))

  observe_providers-sym :
      (t g : Agent) (p q : Option Value) (o : Observation)
      → observe_providers py t g p q ≡ ok o
      → observe_providers py g t q p ≡ ok o
  unfolding observe_providers untrusted_observation
  observe_providers-sym t g (some p) (some q) o e = compare_places-sym p q o e
  observe_providers-sym t g none (some q) o e = ground arith
  observe_providers-sym t g (some p) none o e = ground arith
  observe_providers-sym t g none none o e = ground arith

  -- Which Agent is the target and which the generator has no part in what is observed: with the roles
  -- exchanged the pair is observed in the same scope, from the same source, for the same reasons.
  pub observe_pair-sym :
      (t g : Agent) (o : Observation)
      → observe_pair py (some t) (some g) ≡ ok o
      → observe_pair py (some g) (some t) ≡ ok o
  unfolding observe_pair
  observe_pair-sym t g o e =
      let (p, first, rest) = >>=-eq-ok (trusted_provider py t) _ e in
      let (q, second, last) = >>=-eq-ok (trusted_provider py g) _ rest in
      rw (second, first) (observe_providers-sym t g p q o last)

  -- An observed scope is shown by the metadata of both Agents' providers, both of them trusted.
  pub record IsBacked (agents : List Agent) (o : Observation) (s : Scope) : Type 0 where
    pub target : Agent
    pub generator : Agent
    pub target_provider : Value
    pub generator_provider : Value
    pub target_found : select_one (has_role py "target") agents ≡ some target
    pub generator_found : select_one (has_role py "generator") agents ≡ some generator
    pub target_trusted : IsTrusted py target target_provider
    pub generator_trusted : IsTrusted py generator generator_provider
    pub placed : IsPlaced py target_provider generator_provider s
    pub source : o.source ≡ provider_metadata

  observe_providers-trusted :
      (t g : Agent) (p q : Option Value) (o : Observation) (s : Scope)
      → observe_providers py t g p q ≡ ok o
      → o.scope ≡ some s
      → (u : Value) × (v : Value) × (p ≡ some u)
        × (q ≡ some v)
        × IsPlaced py u v s
        × (o.source ≡ provider_metadata)
  unfolding observe_providers untrusted_observation
  observe_providers-trusted t g (some p) (some q) o s e h =
      let (placed, source) = compare_places-IsPlaced py p q o s e h in
      (p, q, refl, refl, placed, source)
  observe_providers-trusted t g none q o s e h = let never : ⊥ = ground arith in absurd never
  observe_providers-trusted t g (some p) none o s e h = let never : ⊥ = ground arith in absurd never

  observe_pair-IsBacked :
      (t g : Agent) (agents : List Agent) (o : Observation) (s : Scope)
      → select_one (has_role py "target") agents ≡ some t
      → select_one (has_role py "generator") agents ≡ some g
      → observe_pair py (some t) (some g) ≡ ok o
      → o.scope ≡ some s
      → IsBacked agents o s
  unfolding observe_pair
  observe_pair-IsBacked t g agents o s is_t is_g e h =
      let (p, first, rest) = >>=-eq-ok (trusted_provider py t) _ e in
      let (q, second, last) = >>=-eq-ok (trusted_provider py g) _ rest in
      let (u, v, is_u, is_v, placed, source) = observe_providers-trusted t g p q o s last h in
      record {
        target = t;
        generator = g;
        target_provider = u;
        generator_provider = v;
        target_found = is_t;
        generator_found = is_g;
        target_trusted = provider-IsTrusted py t u (rw is_u at first);
        generator_trusted = provider-IsTrusted py g v (rw is_v at second);
        placed = placed;
        source = source;
      }

  -- An observed scope is never taken from what an operator declares: it comes from the provider metadata of
  -- the session's target and generator, and the observation says so. Each of the two providers is
  -- named, is believed at least by half and does not say that its metadata is unverified or
  -- declared; both are one provider, and their metadata name different regions (cross-region), one
  -- region and different zones (cross-zone), or one region and one zone (same-zone). No other scope
  -- is observed.
  pub independent_observation-IsBacked :
      (agents : List Agent) (o : Observation) (s : Scope)
      → independent_observation py agents ≡ ok o
      → o.scope ≡ some s
      → IsBacked agents o s
  unfolding independent_observation observe_pair
  independent_observation-IsBacked agents o s e h =
      elim (Option-cases (select_one (has_role py "target") agents)) [
        | inl missing ↦ let never : ⊥ = ground (arith, missing) in absurd never
        | inr (t, is_t) ↦ elim (Option-cases (select_one (has_role py "generator") agents)) [
          | inl missing ↦ let never : ⊥ = ground (arith, missing, is_t) in absurd never
          | inr (g, is_g) ↦ observe_pair-IsBacked t g agents o s is_t is_g (rw (is_t, is_g) at e) h
        ]
      ]

  -- What each status says of the declared and the observed scope.
  abbrev pub Means : Verification → Scope → Option Scope → Type 0
  Means pending scope seen = Unit
  Means no_evidence scope seen = seen ≡ none
  Means derived scope seen = (scope ≡ undeclared) × (seen ≢ none)
  Means confirmed scope seen =
      (seen ≡ some scope) × (scope ≢ undeclared) × (scope ≢ public_internet)
  Means compatible scope seen =
      ((scope ≡ public_internet) × (seen ≢ none)) ⊎ ((scope ≡ same_host) × (seen ≡ some same_zone))
  Means contradicted scope seen =
      (seen ≢ none) × (seen ≢ some scope) × (scope ≢ undeclared) × (scope ≢ public_internet)

  against-Means : (scope seen : Scope) → Means (against py scope seen).0 scope (some seen)
  unfolding against
  against-Means undeclared seen = ground arith
  against-Means same_host same_zone = ground arith
  against-Means same_zone same_zone = ground arith
  against-Means cross_zone same_zone = ground arith
  against-Means cross_region same_zone = ground arith
  against-Means public_internet seen = ground arith
  against-Means scope seen = ground arith

  against-ne-pending : (scope seen : Scope) → (against py scope seen).0 ≢ pending
  unfolding against
  against-ne-pending scope seen = ground arith

  assessed-Means :
      (d : Scope × String) (both : Bool) (o : Observation)
      → let a = assessed py d both o in
        Means a.status d.0 o.scope
        × ((a.status ≡ pending) ↔ (both ≡ false))
        × (a.scope ≡ d.0)
        × (a.observed_scope ≡ o.scope)
        × (a.observed_source ≡ o.source)
  unfolding assessed verify
  assessed-Means (scope, source) false o = (tt, ((λ _. refl), (λ _. refl)), refl, refl, refl)
  assessed-Means (scope, source) true o = elim (Option-cases o.scope) [
    | inl e ↦ rw e (refl, ((λ h. cc), (λ h. cc)), refl, refl, refl)
    | inr (seen, e) ↦ rw e (
      against-Means scope seen,
      ((λ h. absurd (against-ne-pending scope seen h)), (λ h. cc)),
      refl,
      refl,
      refl,
    )
  ]

  -- The scope that a topology's text declares, `undeclared` where it names none of the fixed set.
  abbrev pub named_scope : Fields → Scope
  named_scope topology =
      elim (parse_scope (text_of py (or_else (get_field "scope" topology) (str "undeclared")))) [
        | none ↦ undeclared
        | some s ↦ s
      ]

  declared-named_scope : (topology : Fields) → (declared py topology).0 ≡ named_scope topology
  unfolding declared
  declared-named_scope topology = ground arith

  -- A verdict rests on the scope that the topology names and on what is observed of the Agents.
  pub record IsJudged (topology : Fields) (agents : List Agent) (a : Assessment) : Type 0 where
    pub seen : Observation
    pub observed : independent_observation py agents ≡ ok seen
    pub means : Means a.status (named_scope topology) seen.scope
    pub waits : (a.status ≡ pending) ↔ (both_present py agents ≡ false)
    pub scope : a.scope ≡ named_scope topology
    pub observed_scope : a.observed_scope ≡ seen.scope
    pub observed_source : a.observed_source ≡ seen.source
    pub backed : (s : Scope) → a.observed_scope ≡ some s → IsBacked agents seen s

  -- A verdict means what it says of the scope that the topology names and of the scope that the trusted
  -- metadata of the session's Agents shows, and reports both: `confirmed` that the declared scope was
  -- observed, `derived` that one was observed and none declared, `contradicted` that a different one
  -- was observed than was declared, `compatible` that the evidence cannot tell the two apart, and
  -- `unavailable` that nothing was observed. It is `pending` exactly while the session lacks one of
  -- the roles.
  pub assess_pairing_topology-Means :
      (topology : Fields) (agents : List Agent) (a : Assessment)
      → assess_pairing_topology py topology agents ≡ ok a
      → IsJudged topology agents a
  unfolding assess_pairing_topology
  assess_pairing_topology-Means topology agents a e =
      let (o, observed, result) = >>=-eq-ok (independent_observation py agents) _ e in
      let made = ok_injective result in
      let (means, waits, scope, seen, source) =
        assessed-Means (declared py topology) (both_present py agents) o in
      let named = declared-named_scope topology in
      let observed_scope = ap (λ x. x.observed_scope) (sym made) ∙ seen in
      record {
        seen = o;
        observed = observed;
        means =
            subst (λ d. Means a.status d o.scope) named
              (subst (λ x. Means x.status (declared py topology).0 o.scope) made means);
        waits = subst (λ x. (x.status ≡ pending) ↔ (both_present py agents ≡ false)) made waits;
        scope = ap (λ x. x.scope) (sym made) ∙ scope ∙ named;
        observed_scope = observed_scope;
        observed_source = ap (λ x. x.observed_source) (sym made) ∙ source;
        backed = λ s is_seen.
            independent_observation-IsBacked agents o s observed (sym observed_scope ∙ is_seen);
      }
