-- ===== src/Campaigns/Contract.antt =====
-- cloudmark/campaigns.py: the immutable contract of a repeated network campaign.
use Prim.Native.Nat.{Ordering}
use Prim.Native.String.{compare}
use cloud_mark.Prelude.{
  ℕ, Bool, true, false, Option, none, some, List, [], ◌∷◌, String, str_eq, if◌then◌else◌, ◌&&◌,
  ◌||◌, select, leb, length, ◌==◌, pos, ltb,
}
use cloud_mark.Python.{
  Value, Items, Fields, dict, list, nil, cons, end, str, int, bool, field, get, get_field, or_else,
  Result, ok, raise, ◌>>=◌, ◌>>◌, guard, value_error, key_error, type_error, Platform, text_of,
  value_eq,
}
use cloud_mark.Store.Schema.{Agent}
use cloud_mark.Store.Pairing.{SessionView}

abbrev pub network_campaign_version : String
network_campaign_version = "network-campaign-v1"

abbrev pub network_campaign_profile : String
network_campaign_profile = "network-peer-standard"

abbrev pub min_windows : ℕ
min_windows = 3

abbrev pub max_windows : ℕ
max_windows = 30

-- The two versions of an installed profile.
pub record ProfileVersions : Type 0 where
  pub profile_version : String
  pub methodology_version : String

-- NETWORK_PROFILES of cloudmark/profiles.py, as far as a contract names it.
unfoldable pub network_profile : String → Option ProfileVersions
network_profile name =
    if str_eq name "network-peer-quick"
    then some (record { profile_version = "1.0"; methodology_version = "network-v1" })
    else if str_eq name "network-peer-standard"
    then some (record { profile_version = "9.0"; methodology_version = "network-v9" })
    else none

-- v.get(key) or {}
abbrev get_dict : Value → String → Result Value
get_dict v k = do w ← get v k; ok (or_else w (dict end))

abbrev pub is_participant : Agent → Bool
is_participant a = str_eq a.role "target" || str_eq a.role "generator"

-- a < b, on texts.
abbrev pub text_lt : String → String → Bool
text_lt a b = elim (compare a b) [ Ordering.lt ↦ true | _ ↦ false ]

module _ (py : Platform) where
  -- str(v or default)
  abbrev pub text_or : String → Value → String
  text_or default v = text_of py (or_else v (str default))

  unfoldable pub topology_identity : Fields → Result Value
  unfolding get_field get or_else text_of
  topology_identity topology = do
    let verification = or_else (get_field "verification" topology) (dict end)
    status ← get verification "status"
    ok (
        dict (
          field "scope" (str (text_or "undeclared" (get_field "scope" topology))) (
            field "source" (str (text_or "unavailable" (get_field "source" topology)))
              (field "evidence_class" (str (text_or "unavailable" status)) end))))

  unfoldable pub participant_identity : Agent → Result Value
  unfolding get or_else text_of
  participant_identity agent = do
    provider ← get_dict (dict agent.system) "provider"
    inventory ← get_dict (dict agent.system) "inventory"
    operating_system ← get_dict inventory "os"
    named ← get provider "provider"
    fallback ← get provider "name"
    instance_type ← get provider "instance_type"
    region ← get provider "region"
    zone ← get provider "zone"
    system ← get operating_system "system"
    release ← get operating_system "release"
    ok (
        dict (
          field "id" (str agent.id) (
            field "name" (str agent.name) (
              field "role" (str agent.role) (
                field "provider" (str (text_or "Unknown" (or_else named fallback))) (
                  field "instance_type" instance_type (
                    field "region" region (
                      field "zone" zone (
                        field "operating_system" system
                          (field "operating_system_release" release end))))))))))

  -- One more participant into `sorted(…, key=role)`, which is stable.
  insert_by_role : String × Value → List (String × Value) → List (String × Value)
  insert_by_role p [] = p ∷ []
  insert_by_role p (q ∷ rest) = if text_lt p.0 q.0 then p ∷ q ∷ rest else q ∷ insert_by_role p rest

  by_role : List (String × Value) → List (String × Value) → List (String × Value)
  unfolding insert_by_role
  by_role sorted [] = sorted
  by_role sorted (p ∷ rest) = by_role (insert_by_role p sorted) rest

  -- The list of the identities, without the keys.
  identities : List (String × Value) → Items
  identities [] = nil
  identities ((role, v) ∷ rest) = cons v (identities rest)

  participants_of : List Agent → Result (List (String × Value))
  unfolding participant_identity
  participants_of [] = ok []
  participants_of (a ∷ rest) = do
    v ← participant_identity a
    vs ← participants_of rest
    ok ((a.role, v) ∷ vs)

  -- The target's and generator's identities.
  unfoldable pub session_participants : SessionView → Result (List (String × Value))
  unfolding participants_of
  session_participants session = participants_of (select is_participant session.agents)

  abbrev pub count_role : String → List (String × Value) → ℕ
  count_role role ps = length (select (λ p. str_eq p.0 role) ps)

  -- roles == {"target", "generator"} and there are two participants.
  unfoldable pub is_pair : List (String × Value) → Bool
  is_pair ps =
      length ps == 2 && (ltb 0 (count_role "target" ps) && ltb 0 (count_role "generator" ps))

  unfoldable pub contract_fields :
      SessionView → String → ℕ → ProfileVersions → Value → List (String × Value) → Fields
  unfolding by_role identities
  contract_fields session profile_name target_windows versions topology participants =
      field "version" (str network_campaign_version) (
        field "suite" (str "network") (
          field "session_id" (str session.id) (
            field "profile" (str profile_name) (
              field "profile_version" (str versions.profile_version) (
                field "methodology_version" (str versions.methodology_version) (
                  field "topology" topology (
                    field "participants" (list (identities (by_role [] participants))) (
                      field "window_policy"
                        (dict (
                          field "dispatch" (str "manual-confirmation-only") (
                            field "calendar" (str "UTC") (
                              field "maximum_valid_windows_per_day" (int (pos 1)) (
                                field "target_distinct_utc_days" (int (pos target_windows)) end)))))
                        (field "claims"
                          (dict (
                            field "pair_temporal_sampling" (bool true) (
                              field "provider_rating_enabled" (bool false) (
                                field "minimum_provider_target_count_satisfied" (bool false) end))))
                          end)))))))))

  unfoldable pub build_network_campaign_contract : SessionView → String → ℕ → Result Fields
  unfolding session_participants is_pair topology_identity contract_fields
  build_network_campaign_contract session profile_name target_windows = do
    guard (str_eq profile_name network_campaign_profile)
        (value_error "Network campaigns require the Provider Internal Network standard profile.")
    guard (leb min_windows target_windows && leb target_windows max_windows)
        (value_error "target_windows must be between 3 and 30.")
    participants ← session_participants session
    guard (is_pair participants)
        (value_error "A network campaign requires exactly one target and one generator Agent.")
    topology ← topology_identity session.topology
    elim (network_profile profile_name) [
      | none ↦ raise key_error
      | some versions ↦
          ok (contract_fields session profile_name target_windows versions topology participants)
    ]

  -- The contract's own participants, by role; an entry that is no dictionary has no `get`.
  contract_items : Items → Result (List (String × Value))
  unfolding get or_else text_of
  contract_items nil = ok []
  contract_items (cons v vs) = do
    role ← get v "role"
    rest ← contract_items vs
    ok ((text_or "" role, v) ∷ rest)

  contract_list : Value → Result (List (String × Value))
  unfolding contract_items
  contract_list (list vs) = contract_items vs
  contract_list _ = raise type_error

  -- The last conjunct is read only if the others hold.
  topology_matches : Fields → Fields → Bool → Result Bool
  unfolding topology_identity value_eq get_field
  topology_matches contract topology false = ok false
  topology_matches contract topology true = do
    identity ← topology_identity topology
    ok (value_eq identity (get_field "topology" contract))

  unfoldable pub contract_matches_session : Fields → SessionView → Result Bool
  unfolding session_participants contract_list by_role identities topology_matches value_eq
      get_field or_else text_of
  contract_matches_session contract session = do
    found ← session_participants session
    expected ← contract_list (or_else (get_field "participants" contract) (list nil))
    let same_id = str_eq session.id (text_or "" (get_field "session_id" contract))
    let same_pair =
        length found == 2
        && value_eq (list (identities (by_role [] found))) (list (identities (by_role [] expected)))
    topology_matches contract session.topology (same_id && same_pair)
