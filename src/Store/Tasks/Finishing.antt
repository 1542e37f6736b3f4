-- ===== src/Store/Tasks/Finishing.antt =====
-- How a task ends: `finish_agent_task`, `abort_agent_task` and `recover_incomplete_runs`.
use cloud_mark.Prelude.{
  ℕ, Bool, true, false, Option, none, some, List, [], ◌∷◌, String, ◌≡◌, refl, arith, if◌then◌else◌,
  inl, inr, Bool-cases, Option-cases, select_one, update, row_count, row_count-key,
  row_count-key_none, update-key_missed, select_one-key_and, select_one-update, ◌==◌, str_eq, ◌&&◌,
  ◌||◌, row_count-update_out, row_count-update_moved, is_some, ◌+◌,
}
use cloud_mark.Python.{Value, ok, raise, value_error}
use cloud_mark.Store.Schema.{
  is_active, is_terminal, is_running, Status, Task, Database, Run, failed, cancelled,
}
use cloud_mark.Store.Runs.{
  recover_incomplete_runs, run_is_active, task_is_active, interrupted_run, interrupted_task,
  get_run, has_run_id,
}
use cloud_mark.Store.Tasks.{
  has_id, get_agent_task, finish_agent_task, abort_agent_task, running_of, finished, active_id,
  aborted, id_of_agent, terminal_row,
}
use cloud_mark.Store.Secrets.{remove_secret}
use cloud_mark.Store.Tasks.WellFormed.{IsWellFormed}

-- The task is the Agent's own, and was claimed: it runs, or is over.
abbrev pub accepts : String → Option Task → Bool
accepts agent_id none = false
accepts agent_id (some t) =
    str_eq t.agent_id agent_id && (is_running t.status || is_terminal t.status)

-- What a final report makes of a row: only a running task of that Agent is changed.
abbrev pub finished_row :
    ℕ → (task_id agent_id : String) → Status → Option Value → Option String → Task → Task
finished_row now task_id agent_id s result error t =
    if running_of task_id agent_id t then finished now s result error t else t

module _ (now : ℕ) (task_id agent_id : String) (s : Status) (result : Option Value)
    (error : Option String) (db : Database) (w : IsWellFormed db) where
  abbrev reported : List Task
  reported = update (running_of task_id agent_id) (finished now s result error) db.tasks

  abbrev acknowledged : Bool
  acknowledged =
      if row_count (running_of task_id agent_id) db.tasks == 1
      then true
      else terminal_row (select_one (id_of_agent task_id agent_id) reported)

  finish_state :
      is_terminal s ≡ true
      → (after : Database) × (finish_agent_task now task_id agent_id s result error db
          ≡ ok (after, acknowledged))
        × (after.tasks ≡ reported)
  unfolding finish_agent_task
  finish_state terminal =
      elim (Bool-cases (row_count (running_of task_id agent_id) db.tasks == 1)) [
        | inl hit ↦ (
          record db { tasks = reported; secrets = remove_secret task_id db.secrets },
          rw (terminal, hit),
          refl,
        )
        | inr missed ↦ (
          if terminal_row (select_one (id_of_agent task_id agent_id) reported)
              then record db { tasks = reported; secrets = remove_secret task_id db.secrets }
              else record db { tasks = reported },
          rw (terminal, missed),
          ground arith,
        )
      ]

  acknowledged-none : select_one (has_id task_id) db.tasks ≡ none → acknowledged ≡ false
  unfolding terminal_row
  acknowledged-none e =
      let counted =
        row_count-key_none (λ t. t.id) task_id
          (λ t. str_eq t.agent_id agent_id && is_running t.status) db.tasks e in
      let missed : (row_count (running_of task_id agent_id) db.tasks == 1) ≡ false = rw counted in
      rw (
        missed,
        update-key_missed (λ t. t.id) task_id
            (λ t. str_eq t.agent_id agent_id && is_running t.status) (finished now s result error)
            db.tasks w.distinct missed,
        select_one-key_and (λ t. t.id) task_id (λ t. str_eq t.agent_id agent_id) db.tasks
            w.distinct,
        e,
      )

  acknowledged-some :
      (t : Task)
      → select_one (has_id task_id) db.tasks ≡ some t
      → acknowledged ≡ accepts agent_id (some t)
  unfolding terminal_row
  acknowledged-some t e =
      let test = λ (x : Task). str_eq x.agent_id agent_id && is_running x.status in
      let counted = row_count-key (λ t. t.id) task_id test db.tasks t w.distinct e in
      elim (Bool-cases (str_eq t.agent_id agent_id && is_running t.status)) [
        | inl runs ↦ rw (counted, runs) (ground arith)
        | inr rests ↦
            let missed : (row_count (running_of task_id agent_id) db.tasks == 1) ≡ false =
              rw (counted, rests) in
            rw
              (
                missed,
                update-key_missed (λ t. t.id) task_id test (finished now s result error) db.tasks
                    w.distinct missed,
                select_one-key_and (λ t. t.id) task_id (λ t. str_eq t.agent_id agent_id) db.tasks
                    w.distinct,
                e,
              )
              (ground arith)
      ]

  acknowledged_lem : acknowledged ≡ accepts agent_id (get_agent_task db task_id)
  unfolding get_agent_task
  acknowledged_lem = elim (Option-cases (select_one (has_id task_id) db.tasks)) [
    | inl e ↦ rw e (acknowledged-none e)
    | inr (t, e) ↦ rw e (acknowledged-some t e)
  ]

  -- On a well-formed store a final report is acknowledged exactly when the task is the reporting
  -- Agent's own and is running or already over, and changes its row only if it is running; a status
  -- that is not final is refused with ValueError.
  pub finish_agent_task-accepts :
      (is_terminal s ≡ false
        → finish_agent_task now task_id agent_id s result error db
          ≡ raise (value_error "Agent task status must be completed, failed, or cancelled."))
      × (is_terminal s ≡ true
          → (after : Database) × (finish_agent_task now task_id agent_id s result error db
              ≡ ok (after, accepts agent_id (get_agent_task db task_id)))
            × ((t : Task)
                → get_agent_task db task_id ≡ some t
                → get_agent_task after task_id
                  ≡ some (finished_row now task_id agent_id s result error t)))
  unfolding finish_agent_task get_agent_task
  finish_agent_task-accepts = (
    λ invalid. rw invalid,
    λ terminal.
        let (after, e, tasks) = finish_state terminal in
        (
          after,
          rw (← acknowledged_lem) e,
          λ t found. rw tasks (
              select_one-update (has_id task_id) (running_of task_id agent_id)
                (finished now s result error) db.tasks t (λ y. refl) found),
        ),
  )

aborted_rows :
    (now : ℕ) (task_id error : String) (xs : List Task) (t : Task)
    → select_one (has_id task_id) (update (active_id task_id) (aborted now error) xs) ≡ some t
    → is_active t.status ≡ false
unfolding select_one update
aborted_rows now task_id error [] t e = cc
aborted_rows now task_id error (x ∷ xs) t e = ground (arith, aborted_rows now task_id error xs t)

-- After an abort the task is no longer queued or running, whatever the store held.
pub abort_agent_task-inactive :
    (now : ℕ) (task_id error : String) (db : Database) (t : Task)
    → get_agent_task (abort_agent_task now task_id error db).0 task_id ≡ some t
    → is_active t.status ≡ false
unfolding abort_agent_task get_agent_task
abort_agent_task-inactive now task_id error db t e =
    ground (arith, aborted_rows now task_id error db.tasks t)

abbrev is_failed : Status → Bool
is_failed failed = true
is_failed _ = false

abbrev pub run_is_failed : Run → Bool
run_is_failed r = is_failed r.status

active_apart : (s : Status) → is_active s ≡ true → is_failed s ≡ false
active_apart failed h = cc
active_apart _ h = refl

-- A run that was queued or running has failed now and has no current job; any other is as it was.
abbrev pub IsRecoveredRun : ℕ → Run → Run → Type 0
IsRecoveredRun now r after =
    (is_active r.status ≡ false → after ≡ r)
    × (is_active r.status ≡ true
        → (after.id ≡ r.id)
          × (after.status ≡ failed)
          × (after.finished_at ≡ some now)
          × (after.heartbeat_at ≡ some now)
          × (after.phase ≡ some "interrupted")
          × (after.current_job ≡ none)
          × (is_some after.error ≡ true))

-- A task that was queued or running is cancelled now; any other is as it was.
abbrev pub IsRecoveredTask : ℕ → Task → Task → Type 0
IsRecoveredTask now t after =
    (is_active t.status ≡ false → after ≡ t)
    × (is_active t.status ≡ true
        → (after.id ≡ t.id)
          × (after.status ≡ cancelled)
          × (after.finished_at ≡ some now)
          × (is_some after.error ≡ true))

recovered_run_lem :
    (now : ℕ) (r : Run)
    → IsRecoveredRun now r (if run_is_active r then interrupted_run now r else r)
recovered_run_lem now r =
    (λ idle. rw idle refl, λ live. rw live (refl, refl, refl, refl, refl, refl, refl))

recovered_task_lem :
    (now : ℕ) (t : Task)
    → IsRecoveredTask now t (if task_is_active t then interrupted_task now t else t)
recovered_task_lem now t = (λ idle. rw idle refl, λ live. rw live (refl, refl, refl, refl))

-- Recovery at start-up leaves no run and no task queued or running and forgets every secret. Each run
-- that was queued or running is failed, with its times and its error set and no current job, each
-- such task is cancelled, and every other row is as it was; the count returned is the number of
-- runs that were queued or running, and the number by which the failed runs have grown.
pub recover_incomplete_runs-none_active :
    (now : ℕ) (db : Database)
    → let (after, failed_runs) = recover_incomplete_runs now db in
      (row_count run_is_active after.runs ≡ 0)
      × (row_count task_is_active after.tasks ≡ 0)
      × (failed_runs ≡ row_count run_is_active db.runs)
      × (after.secrets ≡ [])
      × (row_count run_is_failed after.runs ≡ failed_runs + row_count run_is_failed db.runs)
      × ((run_id : String) (r : Run)
          → get_run db run_id ≡ some r
          → (r_after : Run) × (get_run after run_id ≡ some r_after) × IsRecoveredRun now r r_after)
      × ((task_id : String) (t : Task)
          → get_agent_task db task_id ≡ some t
          → (t_after : Task) × (get_agent_task after task_id ≡ some t_after)
            × IsRecoveredTask now t t_after)
unfolding recover_incomplete_runs get_run get_agent_task
recover_incomplete_runs-none_active now db = (
  row_count-update_out run_is_active (interrupted_run now) db.runs (λ r h. refl),
  row_count-update_out task_is_active (interrupted_task now) db.tasks (λ t h. refl),
  refl,
  refl,
  row_count-update_moved run_is_active run_is_failed (interrupted_run now) db.runs
      (λ r. active_apart r.status) (λ r. refl),
  λ run_id r found. (
    if run_is_active r then interrupted_run now r else r,
    select_one-update (has_run_id run_id) run_is_active (interrupted_run now) db.runs r (λ y. refl)
        found,
    recovered_run_lem now r,
  ),
  λ task_id t found. (
    if task_is_active t then interrupted_task now t else t,
    select_one-update (has_id task_id) task_is_active (interrupted_task now) db.tasks t (λ y. refl)
        found,
    recovered_task_lem now t,
  ),
)
