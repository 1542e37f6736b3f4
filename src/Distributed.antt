-- ===== src/Distributed.antt =====
-- cloudmark/distributed.py: the checks on a pair of Agents, and the wait for a task of one of them.
pub mod Pairs
pub mod Waiting
use Prim.Native.String.{◌++◌ as ◌++ₛ◌}
use cloud_mark.Prelude.{
  ℕ, Bool, true, false, not, Option, none, some, List, [], ◌∷◌, String, str_eq, if◌then◌else◌, ◌&&◌,
  ◌||◌, select, select_one, ltb, ◌-◌, ◌*◌, pos,
}
use cloud_mark.Python.{
  Value, Fields, dict, str, int, get, get_field, find_field, truthy, Exception, Result, ok, raise,
  ◌>>=◌, ◌>>◌, guard, value_error, distributed_error, attribute_error, Platform, Address, text_of,
  strip,
}
use cloud_mark.Store.Schema.{
  Agent, Task, Database, Secret, Status, queued, running, completed, failed, cancelled, other,
}
use cloud_mark.Store.Pairing.{SessionView, get_session}
use cloud_mark.Store.Tasks.{get_agent_task, create_agent_task}
use cloud_mark.Store.Tasks.Calls.{Call, run_calls}
use cloud_mark.Topology.{assess_pairing_topology, Assessment}
use cloud_mark.Runner.{JobContext, checkpoint}
use cloud_mark.Remote.{get_or_empty}
use cloud_mark.Remote.Dispatching.{text_or_default}

-- The address is of no use to a peer.
abbrev pub is_unusable : Address → Bool
is_unusable a = a.is_loopback || (a.is_unspecified || (a.is_multicast || a.is_link_local))

-- ", ".join(names)
unfoldable pub join_names : List String → String
join_names [] = ""
join_names (s ∷ []) = s
join_names (s ∷ t ∷ rest) = s ++ₛ ", " ++ₛ join_names (t ∷ rest)

abbrev pub is_empty : List String → Bool
is_empty [] = true
is_empty (s ∷ rest) = false

abbrev pub member_as : String → Agent → Bool
member_as role a = str_eq a.role role

module _ (py : Platform) where
  -- str(endpoint.get("address", "")).strip()
  abbrev pub advertised : Agent → String
  advertised agent =
      strip (elim (find_field "address" agent.endpoint) [ none ↦ "" | some v ↦ text_of py v ])

  unfoldable pub peer_address : Agent → Result String
  unfolding find_field text_of strip
  peer_address agent = do
    let address = advertised agent
    guard (not (str_eq address "")) (
        distributed_error
          ("Agent " ++ₛ agent.id ++ₛ " did not advertise a peer-reachable address."))
    elim (py.ip_address address) [
      | none ↦
          raise (distributed_error ("Agent " ++ₛ agent.id ++ₛ " advertised an invalid IP address."))
      | some parsed ↦
          if is_unusable parsed
          then raise (
              distributed_error
                ("Agent " ++ₛ agent.id ++ₛ " must advertise a non-loopback unicast address."))
          else ok address
    ]

  -- The capabilities that are required and not reported.
  unfoldable pub missing_capabilities : Value → List String → Result (List String)
  unfolding get truthy
  missing_capabilities capabilities [] = ok []
  missing_capabilities capabilities (c ∷ cs) = do
    v ← get capabilities c
    rest ← missing_capabilities capabilities cs
    ok (if truthy v then rest else c ∷ rest)

  -- The loop's body, for one Agent.
  unfoldable pub validate_member : Agent → List String → Result (Unit {0})
  unfolding get_or_empty missing_capabilities join_names peer_address
  validate_member agent required = do
    guard (str_eq agent.status "online") (
        value_error (
          "Agent " ++ₛ agent.name
          ++ₛ " is offline. Start its persistent worker before running the profile."))
    inventory ← get_or_empty (dict agent.system) "inventory"
    capabilities ← get_or_empty inventory "capabilities"
    missing ← missing_capabilities capabilities required
    guard (is_empty missing) (
        value_error (
          "Agent "
          ++ₛ agent.name
          ++ₛ " is missing required capabilities: "
          ++ₛ join_names missing
          ++ₛ "."))
    address ← peer_address agent
    ok tt

  -- Both members of the pair, the target first.
  unfoldable pub validate_members :
      Option Agent
      → Option Agent
      → (target_capabilities generator_capabilities : List String) → Result (Agent × Agent)
  unfolding validate_member
  validate_members (some target) (some generator) target_capabilities generator_capabilities = do
    _ ← validate_member target target_capabilities
    _ ← validate_member generator generator_capabilities
    ok (target, generator)
  validate_members _ _ target_capabilities generator_capabilities =
      raise (value_error "Distributed run requires one target Agent and one generator Agent.")

  unfoldable pub validate_session :
      Option SessionView
      → (target_capabilities generator_capabilities : List String)
      → Result ((SessionView × Assessment) × (Agent × Agent))
  unfolding assess_pairing_topology validate_members
  validate_session none target_capabilities generator_capabilities =
      raise (value_error "Distributed run requires an existing pairing session.")
  validate_session (some session) target_capabilities generator_capabilities = do
    topology ← assess_pairing_topology py session.topology session.agents
    members ←
        validate_members (select_one (member_as "target") session.agents)
          (select_one (member_as "generator") session.agents) target_capabilities
          generator_capabilities
    ok ((session, topology), members)

  -- The session with the assessment that stands in for its topology, the target and the generator.
  unfoldable pub validate_pair :
      (now : ℕ) (session_id : String) (target_capabilities generator_capabilities : List String)
      → Database
      → Result ((SessionView × Assessment) × (Agent × Agent))
  unfolding get_session validate_session
  validate_pair now session_id target_capabilities generator_capabilities db =
      validate_session (get_session now db session_id) target_capabilities generator_capabilities

  -- `task_id` is the new random id.
  unfoldable pub create_task :
      (now : ℕ) (task_id run_id session_id agent_id kind : String)
      → Fields
      → Option Secret
      → Database
      → Result (Database × String)
  unfolding create_agent_task
  create_task now task_id run_id session_id agent_id kind payload ephemeral_secret db = do
    after ←
        create_agent_task now task_id run_id session_id agent_id kind payload ephemeral_secret db
    ok (after, task_id)
