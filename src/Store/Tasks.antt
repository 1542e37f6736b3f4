-- ===== src/Store/Tasks.antt =====
-- cloudmark/database.py: the rows of the table agent_tasks, and the secrets of the tasks.
pub mod Calls
pub mod Lifecycle
pub mod Secrets
pub mod Invariant
pub mod Claiming
pub mod Finishing
pub mod Advances
pub mod Others
pub mod WellFormed
use Prim.Native.Char.{code}
use Prim.Native.String.{count}
use cloud_mark.Prelude.{
  ℕ, Bool, true, false, not, Option, none, some, List, [], ◌∷◌, ◌++◌, String, float_zero,
  clamp_unit, str_eq, if◌then◌else◌, ◌&&◌, ◌||◌, coalesce, select, select_one, update, row_count,
  leb, ltb, ◌==◌, max, pos_part, is_some, length, any,
}
use cloud_mark.Python.{Value, Fields, Result, ok, raise, integrity_error, value_error}
use cloud_mark.Store.Schema.{
  Status, queued, running, cancelled, is_active, is_terminal, is_running, is_queued, Session, Agent,
  Task, Secret, Database,
}
use cloud_mark.Store.Runs.{get_run, ProgressReport}
use cloud_mark.Store.Secrets.{find_secret, remove_secret, set_secret, check_secret}

abbrev pub has_id : String → Task → Bool
has_id task_id t = str_eq t.id task_id

unfoldable pub get_agent_task : Database → String → Option Task
get_agent_task db task_id = select_one (has_id task_id) db.tasks

abbrev has_session_id : String → Session → Bool
has_session_id session_id s = str_eq s.id session_id

abbrev has_agent_id : String → Agent → Bool
has_agent_id agent_id a = str_eq a.id agent_id

-- The foreign keys of agent_tasks, and its primary key.
unfoldable pub insertable : (task_id run_id session_id agent_id : String) → Database → Bool
unfolding get_run get_agent_task
insertable task_id run_id session_id agent_id db =
    not (is_some (get_agent_task db task_id))
    && is_some (get_run db run_id)
    && is_some (select_one (has_session_id session_id) db.sessions)
    && is_some (select_one (has_agent_id agent_id) db.agents)

abbrev pub new_task : ℕ → (task_id run_id session_id agent_id kind : String) → Fields → Task
new_task now task_id run_id session_id agent_id kind payload = record {
  id = task_id;
  run_id = run_id;
  session_id = session_id;
  agent_id = agent_id;
  kind = kind;
  status = queued;
  payload = payload;
  result = none;
  error = none;
  created_at = now;
  claimed_at = none;
  finished_at = none;
  progress = float_zero;
  phase = none;
  current_job = none;
  completed_steps = 0;
  total_steps = 0;
  heartbeat_at = none;
}

abbrev pub keep_secret : String → Option Secret → List (String × Secret) → List (String × Secret)
keep_secret task_id none secrets = secrets
keep_secret task_id (some s) secrets = set_secret task_id s secrets

unfoldable pub create_agent_task :
    (now : ℕ) (task_id run_id session_id agent_id kind : String) (payload : Fields)
    (ephemeral_secret : Option Secret)
    → Database
    → Result Database
unfolding check_secret insertable set_secret
create_agent_task now task_id run_id session_id agent_id kind payload ephemeral_secret db =
    elim (check_secret ephemeral_secret) [
      | raise e ↦ raise e
      | ok _ ↦
          if insertable task_id run_id session_id agent_id db
          then ok (record db {
            tasks = db.tasks ++ new_task now task_id run_id session_id agent_id kind payload ∷ [];
            secrets = keep_secret task_id ephemeral_secret db.secrets;
          })
          else raise integrity_error
    ]

-- The first row of ORDER BY created_at LIMIT 1 among the rows that pass the test. Of two rows with
-- one time stamp the one of the smaller rowid stands first.
unfoldable pub oldest : (Task → Bool) → List Task → Option Task
oldest test [] = none
oldest test (t ∷ ts) =
    let rest = oldest test ts in
    if test t
    then elim rest [
      | none ↦ some t
      | some u ↦ if ltb u.created_at t.created_at then some u else some t
    ]
    else rest

abbrev pub queued_for : String → Task → Bool
queued_for agent_id t = str_eq t.agent_id agent_id && is_queued t.status

abbrev pub queued_id : String → Task → Bool
queued_id task_id t = has_id task_id t && is_queued t.status

abbrev pub claimed : ℕ → Task → Task
claimed now t = record t { status = running; claimed_at = some now }

-- The task with its secret, or nothing; and the new state.
unfoldable pub claim_row : ℕ → Database → Option Task → Database × Option (Task × Option Secret)
unfolding get_agent_task find_secret
claim_row now db none = (db, none)
claim_row now db (some row) =
    let after : Database = record db { tasks = update (queued_id row.id) (claimed now) db.tasks } in
    if row_count (queued_id row.id) db.tasks == 1
    then elim (get_agent_task after row.id) [
      | none ↦ (after, none)
      | some t ↦ (after, some (t, find_secret row.id db.secrets))
    ]
    else (after, none)

unfoldable pub claim_agent_task : ℕ → String → Database → Database × Option (Task × Option Secret)
unfolding oldest claim_row
claim_agent_task now agent_id db = claim_row now db (oldest (queued_for agent_id) db.tasks)

abbrev pub running_of : String → String → Task → Bool
running_of task_id agent_id t =
    has_id task_id t && (str_eq t.agent_id agent_id && is_running t.status)

abbrev pub finished : ℕ → Status → Option Value → Option String → Task → Task
finished now status result error t = record t {
  status = status;
  result = coalesce result t.result;
  error = error;
  finished_at = some now;
}

abbrev pub id_of_agent : String → String → Task → Bool
id_of_agent task_id agent_id t = has_id task_id t && str_eq t.agent_id agent_id

terminal_row : Option Task → Bool
terminal_row none = false
terminal_row (some t) = is_terminal t.status

unfoldable pub finish_agent_task :
    ℕ
    → (task_id agent_id : String) → Status
    → Option Value
    → Option String
    → Database
    → Result (Database × Bool)
unfolding remove_secret terminal_row
finish_agent_task now task_id agent_id status result error db =
    if is_terminal status
    then (let after : Database = record db {
      tasks = update (running_of task_id agent_id) (finished now status result error) db.tasks;
    } in
        let popped : Database = record after { secrets = remove_secret task_id db.secrets } in
        let terminal = terminal_row (select_one (id_of_agent task_id agent_id) after.tasks) in
        if row_count (running_of task_id agent_id) db.tasks == 1
        then ok (popped, true)
        else ok (if terminal then popped else after, terminal))
    else raise (value_error "Agent task status must be completed, failed, or cancelled.")

abbrev pub progressed_task : ℕ → ProgressReport → Task → Task
progressed_task now p t = record t {
  progress = clamp_unit p.progress;
  phase = p.phase;
  current_job = p.current_job;
  completed_steps = max 0 (pos_part p.completed_steps);
  total_steps = max 1 (pos_part p.total_steps);
  heartbeat_at = some now;
  result = coalesce p.result t.result;
}

unfoldable pub update_agent_task_progress :
    ℕ → (task_id agent_id : String) → ProgressReport → Database → Database × Option Task
unfolding get_agent_task
update_agent_task_progress now task_id agent_id p db =
    let after : Database = record db {
      tasks = update (running_of task_id agent_id) (progressed_task now p) db.tasks;
    } in
    if row_count (running_of task_id agent_id) db.tasks == 1
    then (after, get_agent_task after task_id)
    else (after, none)

abbrev pub active_id : String → Task → Bool
active_id task_id t = has_id task_id t && is_active t.status

abbrev pub aborted : ℕ → String → Task → Task
aborted now error t = record t {
  status = cancelled;
  error = some error;
  finished_at = some now;
  heartbeat_at = some now;
}

unfoldable pub abort_agent_task : ℕ → String → String → Database → Database × Bool
unfolding remove_secret
abort_agent_task now task_id error db =
    let after : Database = record db {
      tasks = update (active_id task_id) (aborted now error) db.tasks;
    } in
    if row_count (active_id task_id) db.tasks == 1
    then (record after { secrets = remove_secret task_id db.secrets }, true)
    else (after, false)

abbrev pub active_for : String → Task → Bool
active_for agent_id t = str_eq t.agent_id agent_id && is_active t.status

unfoldable pub has_active_agent_task : Database → String → Bool
has_active_agent_task db agent_id = is_some (select_one (active_for agent_id) db.tasks)

-- One more row, of a greater rowid, into ORDER BY created_at.
insert_created : Task → List Task → List Task
insert_created t [] = t ∷ []
insert_created t (x ∷ xs) =
    if ltb t.created_at x.created_at then t ∷ x ∷ xs else x ∷ insert_created t xs

by_created : List Task → List Task → List Task
unfolding insert_created
by_created sorted [] = sorted
by_created sorted (t ∷ ts) = by_created (insert_created t sorted) ts

abbrev pub of_run : String → Task → Bool
of_run run_id t = str_eq t.run_id run_id

unfoldable pub list_run_tasks : String → Database → List Task
unfolding by_created
list_run_tasks run_id db = by_created [] (select (of_run run_id) db.tasks)

abbrev pub queued_of_run : String → Task → Bool
queued_of_run run_id t = str_eq t.run_id run_id && is_queued t.status

abbrev pub cancelled_early : ℕ → Task → Task
cancelled_early now t = record t {
  status = cancelled;
  finished_at = some now;
  error = some "Parent run was cancelled before the task started.";
}

unfoldable pub remove_secrets : List Task → List (String × Secret) → List (String × Secret)
unfolding remove_secret
remove_secrets [] secrets = secrets
remove_secrets (t ∷ ts) secrets = remove_secrets ts (remove_secret t.id secrets)

unfoldable pub cancel_queued_run_tasks : ℕ → String → Database → Database × ℕ
unfolding remove_secrets
cancel_queued_run_tasks now run_id db = (
  record db {
    tasks = update (queued_of_run run_id) (cancelled_early now) db.tasks;
    secrets = remove_secrets (select (queued_of_run run_id) db.tasks) db.secrets;
  },
  row_count (queued_of_run run_id) db.tasks,
)
