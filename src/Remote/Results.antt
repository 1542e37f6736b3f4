-- ===== src/Remote/Results.antt =====
-- cloudmark/remote.py: what is read out of the result of a task.
use cloud_mark.Prelude.{Option, none, some, String, ◌&&◌}
use cloud_mark.Python.{
  Exception, Value, Fields, dict, str, field, end, get_field, find_field, set_field, or_else,
  value_eq, Result, ok, raise, ◌>>=◌, ◌>>◌, guard, key_error, remote_error, Platform, text_of,
}
use cloud_mark.Store.Schema.{Agent, Task}
use cloud_mark.Profiles.{Profile}
use cloud_mark.Remote.{remote_methodology_version, parse_suite, find_profile, Suite}

-- `_partial_from_task`
unfoldable pub partial_from_task : Task → Option Value
unfolding get_field
partial_from_task t = elim t.result [
  | none ↦ none
  | some v ↦ elim v [
    | dict payload ↦ elim (get_field "benchmark" payload) [
      | dict benchmark ↦ some (dict benchmark)
      | _ ↦ some (dict payload)
    ]
    | _ ↦ none
  ]
]

-- _profiles(suite)[profile_name]
unfoldable pub installed_profile : Suite → String → Result Profile
unfolding find_profile
installed_profile suite name = elim (find_profile suite name) [
  | none ↦ raise key_error
  | some p ↦ ok p
]

-- task.get("result") or {}
abbrev pub result_or_empty : Option Value → Value
result_or_empty none = dict end
result_or_empty (some v) = or_else v (dict end)

abbrev bad_envelope : Exception
bad_envelope = remote_error "Agent returned an invalid benchmark result envelope." none

abbrev pub open_benchmark : (payload : Fields) → (benchmark : Value) → Result (Fields × Fields)
open_benchmark payload (dict benchmark) = ok (payload, benchmark)
open_benchmark payload _ = raise bad_envelope

abbrev pub open_envelope : (payload : Value) → Result (Fields × Fields)
open_envelope (dict payload) = open_benchmark payload (get_field "benchmark" payload)
open_envelope _ = raise bad_envelope

module _ (py : Platform) where
  abbrev agent_identity : Agent → Value
  agent_identity agent = dict (
      field "id" (str agent.id) (
        field "name" (str agent.name)
          (field "role" (str agent.role) (field "session_id" (str agent.session_id) end))))

  abbrev pub execution_of : Fields → Agent → Value
  execution_of payload agent = dict (
      field "mode" (str "remote-agent") (
        field "protocol_version" (str remote_methodology_version) (
          field "agent_version"
            (str (elim (find_field "agent_version" payload) [
              | none ↦ "unknown"
              | some v ↦ text_of py v
            ]))
            (field "agent" (agent_identity agent) end))))

  abbrev pub with_evidence : Value → Fields → Fields
  with_evidence (dict evidence) result = set_field "target_evidence" (dict evidence) result
  with_evidence _ result = result

  -- The checks on the benchmark that the envelope holds.
  unfoldable pub attributed :
      Fields → Fields → Agent → (suite_name profile_name : String) → Profile → Result Fields
  unfolding get_field find_field set_field value_eq text_of
  attributed payload benchmark agent suite_name profile_name expected = do
    guard
        (value_eq (get_field "suite" benchmark) (str suite_name)
          && value_eq (get_field "profile" benchmark) (str profile_name))
        (remote_error "Agent result suite or profile does not match the dispatched task." none)
    guard (value_eq (get_field "profile_version" benchmark) (str expected.profile_version))
        (remote_error "Agent result profile version does not match the Controller profile." none)
    guard (value_eq (get_field "methodology_version" benchmark) (str expected.methodology_version))
        (remote_error "Agent result methodology version does not match the Controller methodology."
          none)
    ok (
        with_evidence (get_field "evidence" payload)
          (set_field "execution" (execution_of payload agent) benchmark))

  -- `task.get("result") or {}`, as an envelope that holds a benchmark.
  unfoldable pub envelope : Task → Result (Fields × Fields)
  unfolding get_field or_else
  envelope t = open_envelope (result_or_empty t.result)

  unfoldable pub attributed_result :
      Task → Agent → (suite_name profile_name : String) → Result Fields
  unfolding envelope get_field value_eq parse_suite installed_profile attributed
  attributed_result t agent suite_name profile_name = do
    (payload, benchmark) ← envelope t
    guard (value_eq (get_field "protocol_version" payload) (str remote_methodology_version))
        (remote_error "Agent returned an incompatible remote benchmark protocol version." none)
    suite ← parse_suite suite_name
    expected ← installed_profile suite profile_name
    attributed payload benchmark agent suite_name profile_name expected
