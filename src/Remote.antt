-- ===== src/Remote.antt =====
-- cloudmark/remote.py: a benchmark that the Controller hands to one Agent, as a task in the store that
-- it waits for.
pub mod Planning
pub mod Dispatching
pub mod Outcome
pub mod Ordering
pub mod Envelopes
pub mod Attribution
pub mod Admission
pub mod Results
use Prim.Native.String.{◌++◌ as ◌++ₛ◌}
use cloud_mark.Prelude.{
  ℕ, suc, Bool, true, false, not, Option, none, some, List, [], ◌∷◌, String, str_eq, if◌then◌else◌,
  ◌&&◌, ◌||◌, leb, ◌+◌, ◌*◌, max, length, select_one, is_some, pos, coalesce,
}
use cloud_mark.Python.{
  Value, Fields, dict, null, str, int, bool, field, end, get_field, find_field, set_field, or_else,
  value_eq, Exception, Result, ok, raise, ◌>>=◌, ◌>>◌, guard, value_error, key_error,
  distributed_error, remote_error, run_cancelled, run_timed_out, attribute_error, type_error,
  integrity_error, Platform, text_of, get, truthy,
}
use cloud_mark.Store.Schema.{
  Agent, Task, Database, Status, is_running, queued, running, completed, failed, cancelled, other,
}
use cloud_mark.Store.Pairing.{get_agent}
use cloud_mark.Store.Tasks.{
  has_active_agent_task, create_agent_task, get_agent_task, abort_agent_task,
}
use cloud_mark.Store.Tasks.Calls.{Call, run_calls}
use cloud_mark.Profiles.{
  Job, Profile, compute_profiles, memory_profiles, storage_profiles, security_profiles,
}
use cloud_mark.Runner.{JobContext, checkpoint}

abbrev pub remote_methodology_version : String
remote_methodology_version = "remote-agent-v1"

abbrev pub agent_online_seconds : ℕ
agent_online_seconds = 30

abbrev pub task_heartbeat_grace_seconds : ℕ
task_heartbeat_grace_seconds = 45

-- The suites that an Agent runs on its own.
pub data Suite : Type 0 where
  compute memory storage security : Suite

unfoldable pub parse_suite : String → Result Suite
unfolding str_eq
parse_suite s =
    if str_eq s "compute"
    then ok compute
    else if str_eq s "memory"
    then ok memory
    else if str_eq s "storage"
    then ok storage
    else if str_eq s "security"
    then ok security
    else raise (value_error ("Remote execution does not support suite: " ++ₛ s))

abbrev pub suite_text : Suite → String
suite_text compute = "compute"
suite_text memory = "memory"
suite_text storage = "storage"
suite_text security = "security"

unfoldable pub profiles_of : Suite → List Profile
profiles_of compute = compute_profiles
profiles_of memory = memory_profiles
profiles_of storage = storage_profiles
profiles_of security = security_profiles

abbrev pub is_named : String → Profile → Bool
is_named name p = str_eq p.name name

unfoldable pub find_profile : Suite → String → Option Profile
unfolding profiles_of
find_profile suite name = select_one (is_named name) (profiles_of suite)

unfoldable pub known_profile : Suite → String → Result Profile
unfolding find_profile
known_profile suite name = elim (find_profile suite name) [
  | none ↦ raise (value_error ("Unknown " ++ₛ suite_text suite ++ₛ " profile: " ++ₛ name))
  | some p ↦ ok p
]

abbrev pub is_security : Suite → Bool
is_security security = true
is_security _ = false

abbrev pub is_storage : Suite → Bool
is_storage storage = true
is_storage _ = false

abbrev pub is_native : Profile → Bool
is_native p = elim p.executor [ none ↦ false | some e ↦ str_eq e "native-filesystem" ]

unfoldable pub job_seconds : List Job → ℕ
job_seconds [] = 0
job_seconds (j ∷ js) = j.runtime + j.warmup + j.ramp_time + job_seconds js

unfoldable pub timeout_of : Suite → Profile → ℕ
unfolding job_seconds
timeout_of suite p =
    if is_security suite
    then 120
    else if is_storage suite && is_native p
    then max 300 (p.estimated_minutes * 60 + 180)
    else max 180 (job_seconds p.jobs + (if is_storage suite then 300 else 180))

unfoldable pub remote_default_timeout : String → String → Result ℕ
unfolding parse_suite known_profile timeout_of
remote_default_timeout suite_name profile_name = do
  suite ← parse_suite suite_name
  profile ← known_profile suite profile_name
  ok (timeout_of suite profile)

unfoldable pub steps_of : Suite → Profile → ℕ
steps_of suite p =
    if is_security suite then 1 else length p.jobs + (if is_storage suite then 2 else 0)

unfoldable pub remote_total_steps : String → String → Result ℕ
unfolding parse_suite known_profile steps_of
remote_total_steps suite_name profile_name = do
  suite ← parse_suite suite_name
  profile ← known_profile suite profile_name
  ok (steps_of suite profile)

-- A time stamp of the store is not older than so many seconds; None is no time stamp.
unfoldable pub fresh : ℕ → Option ℕ → ℕ → Bool
fresh now none seconds = false
fresh now (some observed) seconds = leb now (observed + seconds * 1_000_000)

unfoldable pub remote_agent_online : ℕ → Agent → Bool
unfolding fresh
remote_agent_online now agent =
    str_eq agent.status "online" && fresh now agent.last_seen_at agent_online_seconds

abbrev pub required_capability : Suite → Profile → String
required_capability storage p = if is_native p then "filesystem_metadata_benchmark" else "fio"
required_capability compute p = "sysbench"
required_capability memory p = "gcc"
required_capability security p = "security_posture_linux"

abbrev needs_linux : Suite → Bool
needs_linux memory = true
needs_linux security = true
needs_linux _ = false

abbrev linux_requirement : Suite → String
linux_requirement memory = "native memory executor with GCC and OpenMP"
linux_requirement _ = "Security Posture executor"

-- v.get(key, {})
unfoldable pub get_or_empty : Value → String → Result Value
unfolding find_field
get_or_empty (dict fs) k = elim (find_field k fs) [ none ↦ ok (dict end) | some v ↦ ok v ]
get_or_empty v k = raise attribute_error

-- The operating system is asked for only where it matters.
unfoldable pub linux_check : Suite → Value → Result (Unit {0})
unfolding get_or_empty get value_eq
linux_check suite inventory =
    if needs_linux suite
    then (do
      operating_system ← get_or_empty inventory "os"
      system ← get operating_system "system"
      guard (value_eq system (str "Linux")) (
          value_error
            ("The " ++ₛ linux_requirement suite ++ₛ " currently requires a Linux Agent.")))
    else ok tt

unfoldable pub validate_found : ℕ → Database → Agent → Suite → Profile → Result Agent
unfolding remote_agent_online get_or_empty get truthy linux_check has_active_agent_task
validate_found now db agent suite profile = do
  guard (remote_agent_online now agent)
      (value_error ("Agent " ++ₛ agent.name ++ₛ " is offline. Start its persistent worker first."))
  inventory ← get_or_empty (dict agent.system) "inventory"
  capabilities ← get_or_empty inventory "capabilities"
  capability ← get capabilities (required_capability suite profile)
  guard (truthy capability) (
      value_error (
        "Agent "
        ++ₛ agent.name
        ++ₛ " does not report the "
        ++ₛ required_capability suite profile
        ++ₛ " capability."))
  _ ← linux_check suite inventory
  guard (not (has_active_agent_task db agent.id))
      (value_error ("Agent " ++ₛ agent.name ++ₛ " already has an active task."))
  ok agent

unfoldable pub validate_remote_agent :
    (now : ℕ) (agent_id suite_name profile_name : String) → Database → Result Agent
unfolding parse_suite known_profile get_agent validate_found
validate_remote_agent now agent_id suite_name profile_name db = do
  suite ← parse_suite suite_name
  profile ← known_profile suite profile_name
  elim (get_agent db agent_id) [
    | none ↦ raise (value_error "Remote benchmark requires an existing Agent.")
    | some agent ↦ validate_found now db agent suite profile
  ]
