-- ===== src/Topology/Placed.antt =====
-- cloudmark/topology.py: when a provider is trusted, and what its metadata shows of a pair.
use cloud_mark.Prelude.{
  subst, sym, ap, ◌∙◌, str_eq, float_lt, pos, true, false, some, String, ◌≡◌, arith,
}
use cloud_mark.Python.{
  ok_injective, Value, get, ok, >>=-eq-ok, lower, Platform, text_of, codes, codes_eq, contains,
  strip, float_of, or_else, int,
}
use cloud_mark.Store.Schema.{Agent}
use cloud_mark.Placement.{
  place_observation, Scope, undeclared, same_host, same_zone, cross_zone, cross_region,
  public_internet, Observation, trusted_provider, compare_places, doubtful, claimed_only,
  field_or_empty, text_or_empty, or_zero, one_half, provider_metadata, placed_in, same_name,
}

module _ (py : Platform) where
  -- The provider that an Agent reports is named, is believed at least by half, and does not say that it
  -- is only claimed.
  pub record IsTrusted (agent : Agent) (provider : Value) : Type 0 where
    pub source : Value
    pub name : Value
    pub confidence : Value
    pub reported : provider ≡ field_or_empty "provider" agent.system
    pub source_read : get provider "source" ≡ ok source
    pub name_read : get provider "provider" ≡ ok name
    pub confidence_read : get provider "confidence" ≡ ok confidence
    pub named : str_eq (strip (text_or_empty py name)) "" ≡ false
    pub known : codes_eq (lower (strip (text_or_empty py name))) (codes "unknown") ≡ false
    pub believed :
        float_lt (or_zero (float_of py (or_else confidence (int (pos 0))))) one_half ≡ false
    pub verified : contains (lower (text_or_empty py source)) (codes "unverified") ≡ false
    pub not_declared : contains (lower (text_or_empty py source)) (codes "declared") ≡ false

  pub provider-IsTrusted :
      (agent : Agent) (provider : Value)
      → trusted_provider py agent ≡ ok (some provider)
      → IsTrusted agent provider
  unfolding trusted_provider doubtful claimed_only
  provider-IsTrusted agent provider e =
      let reported = field_or_empty "provider" agent.system in
      let (source, source_read, e1) = >>=-eq-ok (get reported "source") _ e in
      let (name, name_read, e2) = >>=-eq-ok (get reported "provider") _ e1 in
      let (confidence, confidence_read, e3) = >>=-eq-ok (get reported "confidence") _ e2 in
      let given = ok_injective e3 in
      let is_reported : reported ≡ provider = ground (arith, given) in
      record {
        source = source;
        name = name;
        confidence = confidence;
        reported = sym is_reported;
        source_read = subst (λ v. get v "source" ≡ ok source) is_reported source_read;
        name_read = subst (λ v. get v "provider" ≡ ok name) is_reported name_read;
        confidence_read =
            subst (λ v. get v "confidence" ≡ ok confidence) is_reported confidence_read;
        named = ground (arith, given);
        known = ground (arith, given);
        believed = ground (arith, given);
        verified = ground (arith, given);
        not_declared = ground (arith, given);
      }

  -- Two names that differ at most in case.
  abbrev Agree : String → String → Type 0
  Agree a b = codes_eq (lower a) (lower b) ≡ true

  abbrev Differ : String → String → Type 0
  Differ a b = codes_eq (lower a) (lower b) ≡ false

  abbrev BothNamed : String → String → Type 0
  BothNamed a b = (str_eq a "" ≡ false) × (str_eq b "" ≡ false)

  -- What a scope says of the two regions and the two zones; metadata shows no other scope.
  abbrev pub Shows :
      Scope → (target_region generator_region target_zone generator_zone : String) → Type 0
  Shows cross_region a b x y = BothNamed a b × Differ a b
  Shows cross_zone a b x y = BothNamed a b × Agree a b × BothNamed x y × Differ x y
  Shows same_zone a b x y = BothNamed a b × Agree a b × BothNamed x y × Agree x y
  Shows _ a b x y = ⊥

  -- The two providers' metadata name one provider, and the regions and zones that the scope says.
  pub record IsPlaced (p q : Value) (s : Scope) : Type 0 where
    pub target_name : Value
    pub generator_name : Value
    pub target_region : String
    pub generator_region : String
    pub target_zone : String
    pub generator_zone : String
    pub target_named : get p "provider" ≡ ok target_name
    pub generator_named : get q "provider" ≡ ok generator_name
    pub one_provider : Agree (text_of py target_name) (text_of py generator_name)
    pub target_region_read : placed_in py p "region" ≡ ok target_region
    pub generator_region_read : placed_in py q "region" ≡ ok generator_region
    pub target_zone_read : placed_in py p "zone" ≡ ok target_zone
    pub generator_zone_read : placed_in py q "zone" ≡ ok generator_zone
    pub shown : Shows s target_region generator_region target_zone generator_zone

  place_observation-Shows :
      (n m a b x y : String) (s : Scope)
      → (place_observation py n m a b x y).scope ≡ some s
      → Agree n m
        × Shows s a b x y
        × ((place_observation py n m a b x y).source ≡ provider_metadata)
  unfolding place_observation same_name
  place_observation-Shows n m a b x y undeclared h = let never : ⊥ = ground arith in absurd never
  place_observation-Shows n m a b x y same_host h = let never : ⊥ = ground arith in absurd never
  place_observation-Shows n m a b x y public_internet h =
      let never : ⊥ = ground arith in absurd never
  place_observation-Shows n m a b x y s h = ground arith

  pub compare_places-IsPlaced :
      (p q : Value) (o : Observation) (s : Scope)
      → compare_places py p q ≡ ok o
      → o.scope ≡ some s
      → IsPlaced p q s × (o.source ≡ provider_metadata)
  unfolding compare_places
  compare_places-IsPlaced p q o s e h =
      let (n, n_read, e1) = >>=-eq-ok (get p "provider") _ e in
      let (m, m_read, e2) = >>=-eq-ok (get q "provider") _ e1 in
      let (a, a_read, e3) = >>=-eq-ok (placed_in py p "region") _ e2 in
      let (b, b_read, e4) = >>=-eq-ok (placed_in py q "region") _ e3 in
      let (x, x_read, e5) = >>=-eq-ok (placed_in py p "zone") _ e4 in
      let (y, y_read, e6) = >>=-eq-ok (placed_in py q "zone") _ e5 in
      let observed = ok_injective e6 in
      let (agree, shown, source) =
        place_observation-Shows (text_of py n) (text_of py m) a b x y s
          (ap (λ v. v.scope) observed ∙ h) in
      (
        record {
          target_name = n;
          generator_name = m;
          target_region = a;
          generator_region = b;
          target_zone = x;
          generator_zone = y;
          target_named = n_read;
          generator_named = m_read;
          one_provider = agree;
          target_region_read = a_read;
          generator_region_read = b_read;
          target_zone_read = x_read;
          generator_zone_read = y_read;
          shown = shown;
        },
        sym (ap (λ v. v.source) observed) ∙ source,
      )
