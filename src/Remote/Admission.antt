-- ===== src/Remote/Admission.antt =====
-- Which Agents a benchmark is handed to.
use cloud_mark.Prelude.{
  ℕ, true, false, not, some, String, str_eq_iff, ◌≡◌, ◌≤◌, ◌+◌, subst, arith, inl, inr,
  Option-cases,
}
use cloud_mark.Python.{
  Value, dict, get, truthy, ok, value_error, >>=-eq-ok, guard-passes, ok_injective,
}
use Prim.Native.String.{◌++◌ as ◌++ₛ◌}
use cloud_mark.Store.Schema.{Agent, Database}
use cloud_mark.Store.Pairing.{get_agent}
use cloud_mark.Store.Tasks.{has_active_agent_task}
use cloud_mark.Profiles.{Profile}
use cloud_mark.Remote.{
  Suite, parse_suite, known_profile, fresh, remote_agent_online, validate_found,
  validate_remote_agent, get_or_empty, required_capability, linux_check,
}

-- The Agent is stored, was seen in the last half minute, and has nothing to do; the capability that the
-- profile needs is reported.
pub record IsAdmitted (now : ℕ) (agent_id suite_name profile_name : String) (db : Database)
    (agent : Agent) : Type 0 where
  pub stored : get_agent db agent_id ≡ some agent
  pub online : agent.status ≡ "online"
  pub seen_at : ℕ
  pub seen : agent.last_seen_at ≡ some seen_at
  pub recent : now ≤ seen_at + 30_000_000
  pub idle : has_active_agent_task db agent.id ≡ false
  pub suite : Suite
  pub suite_known : parse_suite suite_name ≡ ok suite
  pub profile : Profile
  pub profile_known : known_profile suite profile_name ≡ ok profile
  pub inventory : Value
  pub inventory_read : get_or_empty (dict agent.system) "inventory" ≡ ok inventory
  pub capabilities : Value
  pub capabilities_read : get_or_empty inventory "capabilities" ≡ ok capabilities
  pub capability : Value
  pub capability_read : get capabilities (required_capability suite profile) ≡ ok capability
  pub capable : truthy capability ≡ true

online_seen :
    (now : ℕ) (agent : Agent)
    → remote_agent_online now agent ≡ true
    → (agent.status ≡ "online") × ((t : ℕ) × (agent.last_seen_at ≡ some t) × (now ≤ t + 30_000_000))
unfolding remote_agent_online fresh
online_seen now agent e =
    let online = (str_eq_iff agent.status "online").0 (ground (arith, e)) in
    elim (Option-cases agent.last_seen_at) [
      | inl never_seen ↦ let never : ⊥ = ground (arith, e, never_seen) in absurd never
      | inr (t, seen) ↦ (online, (t, seen, ground (arith, e, seen)))
    ]

validate_found-IsAdmitted :
    (now : ℕ) (agent_id suite_name profile_name : String) (db : Database) (found agent : Agent)
    (suite : Suite) (profile : Profile)
    → parse_suite suite_name ≡ ok suite
    → known_profile suite profile_name ≡ ok profile
    → get_agent db agent_id ≡ some found
    → validate_found now db found suite profile ≡ ok agent
    → IsAdmitted now agent_id suite_name profile_name db agent
unfolding validate_found
validate_found-IsAdmitted now agent_id suite_name profile_name db found agent suite profile known
      profile_known stored e =
    let (online, e1) =
      guard-passes (remote_agent_online now found)
        (value_error
          ("Agent " ++ₛ found.name ++ₛ " is offline. Start its persistent worker first."))
        _ e in
    let (inventory, inventory_read, e2) =
      >>=-eq-ok (get_or_empty (dict found.system) "inventory") _ e1 in
    let (capabilities, capabilities_read, e3) =
      >>=-eq-ok (get_or_empty inventory "capabilities") _ e2 in
    let (capability, capability_read, e4) =
      >>=-eq-ok (get capabilities (required_capability suite profile)) _ e3 in
    let (capable, e5) =
      guard-passes (truthy capability)
        (value_error (
          "Agent "
          ++ₛ found.name
          ++ₛ " does not report the "
          ++ₛ required_capability suite profile
          ++ₛ " capability."))
        _ e4 in
    let (_, _, e6) = >>=-eq-ok (linux_check suite inventory) _ e5 in
    let (idle, e7) =
      guard-passes (not (has_active_agent_task db found.id))
        (value_error ("Agent " ++ₛ found.name ++ₛ " already has an active task.")) _ e6 in
    let (status, (t, seen, recent)) = online_seen now found online in
    subst (IsAdmitted now agent_id suite_name profile_name db) {x = found} (ok_injective e7)
      (record {
        stored = stored;
        online = status;
        seen_at = t;
        seen = seen;
        recent = recent;
        idle = ground (arith, idle);
        suite = suite;
        suite_known = known;
        profile = profile;
        profile_known = profile_known;
        inventory = inventory;
        inventory_read = inventory_read;
        capabilities = capabilities;
        capabilities_read = capabilities_read;
        capability = capability;
        capability_read = capability_read;
        capable = capable;
      })

-- An Agent that passes the validation is stored under the id, is online and was seen in the last 30
-- seconds, reports the capability that the profile of the suite needs, and has no queued or running task.
pub validate_remote_agent-IsAdmitted :
    (now : ℕ) (agent_id suite_name profile_name : String) (db : Database) (agent : Agent)
    → validate_remote_agent now agent_id suite_name profile_name db ≡ ok agent
    → IsAdmitted now agent_id suite_name profile_name db agent
unfolding validate_remote_agent
validate_remote_agent-IsAdmitted now agent_id suite_name profile_name db agent e =
    let (suite, known, e1) = >>=-eq-ok (parse_suite suite_name) _ e in
    let (profile, profile_known, e2) = >>=-eq-ok (known_profile suite profile_name) _ e1 in
    elim (Option-cases (get_agent db agent_id)) [
      | inl missing ↦ let never : ⊥ = ground (arith, e2, missing) in absurd never
      | inr (found, stored) ↦
          validate_found-IsAdmitted now agent_id suite_name profile_name db found agent suite
            profile known profile_known stored (ground (arith, e2, stored))
    ]
