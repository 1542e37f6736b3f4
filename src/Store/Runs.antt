-- ===== src/Store/Runs.antt =====
-- cloudmark/database.py: the rows of the table runs.
pub mod Cancellation
pub mod Soundness
pub mod Listing
use cloud_mark.Prelude.{
  ℕ, suc, Bool, true, false, Option, none, some, List, [], ◌∷◌, ◌++◌, String, Float, float_zero,
  float_one, clamp_unit, str_eq, if◌then◌else◌, ◌&&◌, coalesce, select, select_one, update,
  row_count, take, leb, ltb, max, min, pos_part, ℤ, is_some,
}
use cloud_mark.Python.{Value, Fields, str, get_field, or_else, Result, ok, raise, integrity_error}
use cloud_mark.Store.Schema.{
  Status, queued, failed, is_active, is_terminal, is_running, is_completed, Run, Database, Task,
  cancelled,
}

abbrev pub has_run_id : String → Run → Bool
has_run_id run_id r = str_eq r.id run_id

unfoldable pub get_run : Database → String → Option Run
get_run db run_id = select_one (has_run_id run_id) db.runs

-- `str(value)`: a text is itself, and `repr` prints any other value.
module _ (repr : Value → String) where
  unfoldable pub to_str : Value → String
  to_str (str s) = s
  to_str v = repr v

  -- str(request.get("campaign_id") or "") or None
  unfoldable pub requested_campaign : Fields → Option String
  unfolding to_str get_field or_else
  requested_campaign request =
      let text = to_str (or_else (get_field "campaign_id" request) (str "")) in
      if str_eq text "" then none else some text

  unfoldable pub create_run :
      (run_id suite profile : String) (request : Fields) (total_steps : ℤ)
      (runner_version methodology_version tool_version : Option String)
      → Database
      → Result Database
  unfolding get_run requested_campaign
  create_run run_id suite profile request total_steps runner_version methodology_version
        tool_version db =
      if is_some (get_run db run_id)
      then raise integrity_error
      else ok (record db {
        runs =
            db.runs
            ++ (record {
              id = run_id;
              suite = suite;
              profile = profile;
              status = queued;
              started_at = none;
              finished_at = none;
              request = request;
              campaign_id = requested_campaign request;
              result = none;
              error = none;
              progress = float_zero;
              phase = some "queued";
              current_job = none;
              completed_steps = 0;
              total_steps = max 1 (pos_part total_steps);
              heartbeat_at = none;
              cancel_requested = false;
              runner_version = runner_version;
              methodology_version = methodology_version;
              tool_version = tool_version;
            })
              ∷ [];
      })

-- The optional arguments of `update_run`.
pub record RunUpdate : Type 0 where
  pub status : Status
  pub result : Option Value
  pub error : Option String
  pub progress : Option Float
  pub phase : Option String
  pub current_job : Option String
  pub tool_version : Option String

-- progress = 1.0 if status == "completed" and progress is None, then min(1.0, max(0.0, progress)).
stored_progress : Status → Option Float → Option Float
stored_progress status (some x) = some (clamp_unit x)
stored_progress status none = if is_completed status then some (clamp_unit float_one) else none

value_or {ℓ} : {A : Type ℓ} → A → Option A → A
value_or a none = a
value_or a (some b) = b

-- One row of the UPDATE in `update_run`.
unfoldable pub updated_run : ℕ → RunUpdate → Run → Run
unfolding stored_progress value_or
updated_run now u r = record r {
  status = u.status;
  started_at = coalesce (if is_running u.status then some now else none) r.started_at;
  finished_at = coalesce (if is_terminal u.status then some now else none) r.finished_at;
  result = coalesce u.result r.result;
  error = u.error;
  progress = value_or r.progress (stored_progress u.status u.progress);
  phase = coalesce u.phase r.phase;
  current_job = u.current_job;
  heartbeat_at = some now;
  tool_version = coalesce u.tool_version r.tool_version;
}

unfoldable pub update_run : ℕ → String → RunUpdate → Database → Database
unfolding updated_run
update_run now run_id u db = record db {
  runs = update (has_run_id run_id) (updated_run now u) db.runs;
}

-- The arguments of `update_run_progress` and `update_agent_task_progress`.
pub record ProgressReport : Type 0 where
  pub progress : Float
  pub phase : Option String
  pub current_job : Option String
  pub completed_steps : ℤ
  pub total_steps : ℤ
  pub result : Option Value

unfoldable pub progressed_run : ℕ → ProgressReport → Run → Run
progressed_run now p r = record r {
  progress = clamp_unit p.progress;
  phase = p.phase;
  current_job = p.current_job;
  completed_steps = max 0 (pos_part p.completed_steps);
  total_steps = max 1 (pos_part p.total_steps);
  heartbeat_at = some now;
  result = coalesce p.result r.result;
}

unfoldable pub update_run_progress : ℕ → String → ProgressReport → Database → Database
unfolding progressed_run
update_run_progress now run_id p db = record db {
  runs = update (has_run_id run_id) (progressed_run now p) db.runs;
}

abbrev pub active_run : String → Run → Bool
active_run run_id r = has_run_id run_id r && is_active r.status

abbrev pub cancel_marked : ℕ → Run → Run
cancel_marked now r = record r { cancel_requested = true; heartbeat_at = some now }

-- The new state, and whether a row was hit.
unfoldable pub request_cancel : ℕ → String → Database → Database × Bool
request_cancel now run_id db = (
  record db { runs = update (active_run run_id) (cancel_marked now) db.runs },
  ltb 0 (row_count (active_run run_id) db.runs),
)

cancel_flag : Option Run → Bool
cancel_flag none = false
cancel_flag (some r) = r.cancel_requested

unfoldable pub is_cancel_requested : Database → String → Bool
unfolding cancel_flag get_run
is_cancel_requested db run_id = cancel_flag (get_run db run_id)

abbrev pub interrupted_run : ℕ → Run → Run
interrupted_run now r = record r {
  status = failed;
  finished_at = some now;
  heartbeat_at = some now;
  phase = some "interrupted";
  current_job = none;
  error = some "Controller restarted before the run reached a terminal state.";
}

abbrev pub interrupted_task : ℕ → Task → Task
interrupted_task now t = record t {
  status = cancelled;
  finished_at = some now;
  error = some "Controller restarted before the distributed task completed.";
}

abbrev pub run_is_active : Run → Bool
run_is_active r = is_active r.status

abbrev pub task_is_active : Task → Bool
task_is_active t = is_active t.status

-- The new state, and the number of runs that were interrupted.
unfoldable pub recover_incomplete_runs : ℕ → Database → Database × ℕ
recover_incomplete_runs now db = (
  record db {
    runs = update run_is_active (interrupted_run now) db.runs;
    tasks = update task_is_active (interrupted_task now) db.tasks;
    secrets = [];
  },
  row_count run_is_active db.runs,
)

-- COALESCE(started_at, ''), which stands before every time stamp.
abbrev pub start_key : Run → ℕ
start_key r = elim r.started_at [ none ↦ 0 | some t ↦ suc t ]

-- One more row, of a greater rowid, into ORDER BY … DESC, rowid DESC.
unfoldable pub insert_latest : Run → List Run → List Run
insert_latest r [] = r ∷ []
insert_latest r (x ∷ xs) =
    if leb (start_key x) (start_key r) then r ∷ x ∷ xs else x ∷ insert_latest r xs

-- One more row, of a greater rowid, into ORDER BY … ASC, rowid ASC.
unfoldable pub insert_earliest : Run → List Run → List Run
insert_earliest r [] = r ∷ []
insert_earliest r (x ∷ xs) =
    if ltb (start_key r) (start_key x) then r ∷ x ∷ xs else x ∷ insert_earliest r xs

unfoldable pub latest_first : List Run → List Run → List Run
unfolding insert_latest
latest_first sorted [] = sorted
latest_first sorted (r ∷ rs) = latest_first (insert_latest r sorted) rs

unfoldable pub earliest_first : List Run → List Run → List Run
unfolding insert_earliest
earliest_first sorted [] = sorted
earliest_first sorted (r ∷ rs) = earliest_first (insert_earliest r sorted) rs

unfoldable pub list_runs : ℤ → Database → List Run
unfolding latest_first
list_runs limit db = take (max 1 (min (pos_part limit) 5000)) (latest_first [] db.runs)

abbrev pub in_campaign : Option String → Run → Bool
in_campaign none r = is_some r.campaign_id
in_campaign (some c) r = elim r.campaign_id [ none ↦ false | some d ↦ str_eq d c ]

unfoldable pub list_campaign_runs : Option String → Database → List Run
unfolding earliest_first
list_campaign_runs campaign_id db = earliest_first [] (select (in_campaign campaign_id) db.runs)
