-- ===== src/Samples.antt =====
-- A small controller state for the worked examples: one run, one session with two Agents, and tasks.
pub mod StoreRuns
pub mod Tables
pub mod Network
pub mod Windows
pub mod Jobs
pub mod Ratings
pub mod Cohorts
pub mod Costs
pub mod Listed
pub mod StorageWindows
use cloud_mark.Prelude.{ℕ, Option, none, some, List, [], ◌∷◌, String, float_zero, true, false, pos}
use cloud_mark.Python.{Value, Fields, str, dict, bool, int, float, field, end, Platform, Address}
use cloud_mark.Prelude.{fraction}
use cloud_mark.Store.Schema.{
  Status, queued, running, completed, failed, cancelled, Run, Session, Agent, Task, Campaign,
  Secret, Database,
}
use cloud_mark.Store.Tasks.{new_task}

abbrev pub public_address : Address
public_address = record {
  is_global = true;
  is_loopback = false;
  is_unspecified = false;
  is_multicast = false;
  is_link_local = false;
}

abbrev pub platform : Platform
platform = record {
  repr = λ v. "1";
  parse_float = λ s. none;
  ip_address = λ s. some public_address;
  from_iso = λ s. some (true, 7);
  iso = λ t. "2026-01-02T00:00:00+00:00";
  dumps = λ v. "[]";
  parse_url = λ s. some (record {
    scheme = "https";
    hostname = some "example.org";
    username = none;
    password = none;
    fragment = "";
  });
}

abbrev provider : (zone : String) → Value
provider zone = dict (
    field "provider" (str "Acme") (
      field "source" (str "metadata") (
        field "confidence" (float (fraction (pos 9) 9))
          (field "region" (str "r1") (field "zone" (str zone) end)))))

abbrev inventory : Value
inventory = dict (
    field "capabilities" (dict (field "sysbench" (bool true) (field "iperf3" (bool true) end)))
      (field "os" (dict (field "system" (str "Linux") end)) end))

abbrev pub agent : (id role zone : String) → Agent
agent id role zone = record {
  id = id;
  session_id = "s1";
  name = id;
  role = role;
  status = "online";
  joined_at = 10;
  last_seen_at = some 40;
  token_hash = "hash";
  endpoint = field "address" (str "8.8.8.8") end;
  system = field "provider" (provider zone) (field "inventory" inventory end);
}

abbrev pub target : Agent
target = agent "a1" "target" "z1"

abbrev pub generator : Agent
generator = agent "a2" "generator" "z2"

abbrev pub session : Session
session = record {
  id = "s1";
  label = "pair";
  join_token_hash = "hash";
  ready = true;
  created_at = 1;
  expires_at = "later";
  topology = dict (field "scope" (str "cross-zone") (field "source" (str "operator") end));
}

abbrev pub run : (id : String) → Status → Run
run id status = record {
  id = id;
  suite = "compute";
  profile = "compute-quick";
  status = status;
  started_at = some 20;
  finished_at = none;
  request = end;
  campaign_id = none;
  result = none;
  error = none;
  progress = float_zero;
  phase = none;
  current_job = none;
  completed_steps = 0;
  total_steps = 3;
  heartbeat_at = none;
  cancel_requested = false;
  runner_version = none;
  methodology_version = none;
  tool_version = none;
}

abbrev pub waiting_task : Task
waiting_task = new_task 30 "t1" "r1" "s1" "a1" "benchmark-compute" end

abbrev pub running_task : Task
running_task = record (new_task 31 "t2" "r1" "s1" "a2" "generator" end) {
  status = running;
  claimed_at = some 35;
}

abbrev pub secret : Secret
secret = ("password", "0123456789abcdef") ∷ []

-- A queued task of the target, with a secret, and a running one of the generator.
abbrev pub controller : Database
controller = record {
  runs = run "r1" running ∷ [];
  sessions = session ∷ [];
  agents = target ∷ generator ∷ [];
  tasks = waiting_task ∷ running_task ∷ [];
  campaigns = [];
  cost_observations = [];
  secrets = ("t1", secret) ∷ [];
}
