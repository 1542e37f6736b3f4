-- ===== src/Suitability/Runs.antt =====
-- cloudmark/suitability.py: which targets a run measured, and whether its result counts.
use cloud_mark.Prelude.{
  Bool, true, false, not, ◌&&◌, ◌||◌, Option, none, some, List, [], ◌∷◌, ◌++◌, String, str_eq,
  if◌then◌else◌, map, any,
}
use cloud_mark.Python.{
  Value, Items, Fields, str, list, dict, nil, cons, end, get_field, get_or, is_true, is_dict,
  or_else, optional_text, get, iterate, Result, ok, ◌>>=◌, Platform, text_of, strip,
}
use cloud_mark.Store.Schema.{Run, is_completed}
use cloud_mark.Campaigns.Contract.{text_or}
use cloud_mark.Profiles.{
  Profile, compute_profiles, memory_profiles, storage_profiles, security_profiles,
}
use cloud_mark.Profiles.Network.{network_profiles}
use cloud_mark.Profiles.Databases.{database_profiles}
use cloud_mark.Profiles.Web.{web_profiles}
use cloud_mark.Suitability.Evidence.{nested}

abbrev pub is_one_of : List String → String → Bool
is_one_of words s = any (str_eq s) words

-- A set of texts is a list without repetitions.
unfoldable pub insert_id : String → List String → List String
insert_id id ids = if is_one_of ids id then ids else ids ++ id ∷ []

unfoldable pub union_ids : List String → List String → List String
unfolding insert_id
union_ids ids [] = ids
union_ids ids (id ∷ rest) = union_ids (insert_id id ids) rest

abbrev methodology_of : Profile → String
methodology_of p = p.methodology_version

module _ (py : Platform) where
  methodology_field : String × Fields → String
  unfolding text_of get_field
  methodology_field (name, profile) = text_of py (get_field "methodology_version" profile)

  -- EXPECTED_METHODOLOGIES.get(suite)
  unfoldable pub expected_methodologies : String → Option (List String)
  unfolding methodology_field
  expected_methodologies suite =
      if str_eq suite "compute"
      then some (map methodology_of compute_profiles)
      else if str_eq suite "memory"
      then some (map methodology_of memory_profiles)
      else if str_eq suite "storage"
      then some (map methodology_of storage_profiles)
      else if str_eq suite "network"
      then some (
          map methodology_field network_profiles
          ++ "network-v2" ∷ "network-v3" ∷ "network-v4" ∷ "network-v5" ∷ "network-v6" ∷ "network-v7"
            ∷ "network-v8" ∷ [])
      else if str_eq suite "database"
      then some (map methodology_field database_profiles)
      else if str_eq suite "web"
      then some (map methodology_field web_profiles)
      else if str_eq suite "security"
      then some (map methodology_of security_profiles)
      else none

  add_endpoint : Value → List String → Result (List String)
  unfolding or_else get_or text_of strip insert_id
  add_endpoint endpoint ids = do
    id ← get_or (or_else endpoint (dict end)) "id" (str "")
    let name = strip (text_of py id)
    ok (if str_eq name "" then ids else insert_id name ids)

  add_endpoints : Items → List String → Result (List String)
  unfolding get add_endpoint
  add_endpoints nil ids = ok ids
  add_endpoints (cons measurement rest) ids = do
    sender ← get measurement "sender"
    receiver ← get measurement "receiver"
    with_sender ← add_endpoint sender ids
    with_both ← add_endpoint receiver with_sender
    add_endpoints rest with_both

  collect_endpoints : Value → List String → List String → Result (List String)
  unfolding get or_else iterate add_endpoints
  collect_endpoints result [] ids = ok ids
  collect_endpoints result (collection ∷ rest) ids = do
    found ← get result collection
    measurements ← iterate (or_else found (list nil))
    more ← add_endpoints measurements ids
    collect_endpoints result rest more

  abbrev result_or_empty : Run → Value
  result_or_empty run = elim run.result [ none ↦ dict end | some v ↦ or_else v (dict end) ]

  suite_targets : String → Value → Result (List String)
  unfolding nested or_else text_of strip collect_endpoints
  suite_targets suite result =
      if is_one_of ("database" ∷ "web" ∷ []) suite
      then (let id = strip (text_or py "" (nested result ("target" ∷ "id" ∷ []))) in
          ok (if str_eq id "" then [] else id ∷ []))
      else if str_eq suite "network"
      then collect_endpoints result
          ("measurements" ∷ "latency_measurements" ∷ "udp_measurements"
            ∷ "bidirectional_measurements" ∷ [])
          []
      else ok ("controller" ∷ [])

  -- _run_targets
  unfoldable pub run_targets : Run → Result (List String)
  unfolding get_or text_of strip suite_targets or_else
  run_targets run = do
    requested ← get_or (dict run.request) "agent_id" (str "")
    let agent_id = strip (text_of py requested)
    if not (str_eq agent_id "")
        then ok (agent_id ∷ [])
        else suite_targets run.suite (result_or_empty run)

  abbrev is_confirmed : Value → List String → Bool
  is_confirmed result path = is_true (nested result path)

  abbrev validated_methodologies : String → List String
  validated_methodologies suite =
      if str_eq suite "database"
      then "database-postgresql-v2" ∷ "database-postgresql-recovery-v1"
        ∷ "database-postgresql-checkpoint-v1" ∷ "database-redis-v1" ∷ "database-mysql-v1" ∷ []
      else if str_eq suite "web"
      then "web-http-v2" ∷ "web-http2-load-v1" ∷ []
      else if str_eq suite "network"
      then "network-v3" ∷ "network-v4" ∷ "network-v5" ∷ "network-v6" ∷ "network-v7" ∷ "network-v8"
        ∷ "network-v9" ∷ []
      else []

  abbrev insufficient_reason : String → String
  insufficient_reason suite =
      if str_eq suite "database"
      then "Database Generator validity, required tail/recovery evidence, or cleanup evidence is insufficient for comparison."
      else if str_eq suite "web"
      then "Web v2 Generator headroom, dynamic reverse-proxy, HTTP/2 negotiation, or cleanup evidence is insufficient for comparison."
      else "Network route, bounded path-trace, NIC, TCP-control, interface-counter, or Generator headroom evidence is insufficient for comparison."

  abbrev is_recognized : Option (List String) → String → Bool
  is_recognized none methodology = true
  is_recognized (some versions) methodology = is_one_of versions methodology

  -- The checks on a completed result: `none` where all pass, or else the reason.
  unfoldable pub result_defect : Run → Value → Result (Option String)
  unfolding expected_methodologies nested or_else get_or get text_of
  result_defect run result = do
    named ← get result "methodology_version"
    written ← get_or result "methodology_version" (str "")
    let methodology = text_or py "" (or_else named (optional_text run.methodology_version))
    ok (
        if not (is_recognized (expected_methodologies run.suite) methodology)
        then some "Methodology version is not recognized by the installed evaluator."
        else if str_eq run.suite "storage"
            && not (is_confirmed result ("safety" ∷ "test_file_removed" ∷ []))
        then some "Storage cleanup is not verified."
        else if is_one_of ("database" ∷ "web" ∷ []) run.suite
            && not (is_confirmed result ("cleanup" ∷ "cleanup_verified" ∷ []))
        then some "Ephemeral service cleanup is not verified."
        else if is_one_of (validated_methodologies run.suite) (text_of py written)
            && not (is_confirmed result ("analysis" ∷ "validity" ∷ "comparison_eligible" ∷ []))
        then some (insufficient_reason run.suite)
        else none)

  -- _run_valid
  unfoldable pub run_valid : Run → Result (Bool × Option String)
  unfolding result_defect
  run_valid run = elim run.result [
    | none ↦ ok (false, some "Run is not completed.")
    | some result ↦
        if not (is_completed run.status) || not (is_dict result)
        then ok (false, some "Run is not completed.")
        else (result_defect run result >>= λ defect.
            ok (elim defect [ none ↦ (true, none) | some reason ↦ (false, some reason) ]))
  ]
