-- ===== src/Store/Schema.antt =====
-- cloudmark/database.py: the tables that `_initialize` creates. A row is a record, a JSON column holds
-- the decoded value, and a time stamp is a number of microseconds: the texts that `utc_now` writes
-- are ordered like the instants that they stand for.
use cloud_mark.Prelude.{ℕ, Bool, true, false, Option, List, [], String, Float}
use cloud_mark.Python.{Value, Fields}

-- The texts that the columns `status` of runs, agent_tasks and campaigns hold.
pub data Status : Type 0 where
  queued running completed failed cancelled : Status
  other : String → Status

-- status IN ('queued', 'running')
abbrev pub is_active : Status → Bool
is_active queued = true
is_active running = true
is_active _ = false

-- status in {"completed", "failed", "cancelled"}
abbrev pub is_terminal : Status → Bool
is_terminal completed = true
is_terminal failed = true
is_terminal cancelled = true
is_terminal _ = false

abbrev pub is_queued : Status → Bool
is_queued queued = true
is_queued _ = false

abbrev pub is_running : Status → Bool
is_running running = true
is_running _ = false

abbrev pub is_completed : Status → Bool
is_completed completed = true
is_completed _ = false

pub record Run : Type 0 where
  pub id : String
  pub suite : String
  pub profile : String
  pub status : Status
  pub started_at : Option ℕ
  pub finished_at : Option ℕ
  pub request : Fields
  pub campaign_id : Option String
  pub result : Option Value
  pub error : Option String
  pub progress : Float
  pub phase : Option String
  pub current_job : Option String
  pub completed_steps : ℕ
  pub total_steps : ℕ
  pub heartbeat_at : Option ℕ
  pub cancel_requested : Bool
  pub runner_version : Option String
  pub methodology_version : Option String
  pub tool_version : Option String

pub record Session : Type 0 where
  pub id : String
  pub label : String
  pub join_token_hash : String
  pub ready : Bool
  pub created_at : ℕ
  pub expires_at : String
  pub topology : Value

pub record Agent : Type 0 where
  pub id : String
  pub session_id : String
  pub name : String
  pub role : String
  pub status : String
  pub joined_at : ℕ
  pub last_seen_at : Option ℕ
  pub token_hash : String
  pub endpoint : Fields
  pub system : Fields

pub record Task : Type 0 where
  pub id : String
  pub run_id : String
  pub session_id : String
  pub agent_id : String
  pub kind : String
  pub status : Status
  pub payload : Fields
  pub result : Option Value
  pub error : Option String
  pub created_at : ℕ
  pub claimed_at : Option ℕ
  pub finished_at : Option ℕ
  pub progress : Float
  pub phase : Option String
  pub current_job : Option String
  pub completed_steps : ℕ
  pub total_steps : ℕ
  pub heartbeat_at : Option ℕ

pub record Campaign : Type 0 where
  pub id : String
  pub label : String
  pub status : String
  pub created_at : ℕ
  pub target_windows : ℕ
  pub contract : Fields

-- The columns that the table is ordered by, and the whole observation.
pub record CostRow : Type 0 where
  pub id : String
  pub target_id : String
  pub observed_at : String
  pub created_at : String
  pub observation : Fields

-- A task secret: names and their values.
abbrev pub Secret : Type 0
Secret = List (String × String)

-- The tables, each in rowid order, and the secrets that live in the Controller's memory only.
pub record Database : Type 0 where
  pub runs : List Run
  pub sessions : List Session
  pub agents : List Agent
  pub tasks : List Task
  pub campaigns : List Campaign
  pub cost_observations : List CostRow
  pub secrets : List (String × Secret)

abbrev pub empty : Database
empty = record {
  runs = [];
  sessions = [];
  agents = [];
  tasks = [];
  campaigns = [];
  cost_observations = [];
  secrets = [];
}
