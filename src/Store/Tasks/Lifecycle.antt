-- ===== src/Store/Tasks/Lifecycle.antt =====
-- How a task's row may change.
use cloud_mark.Prelude.{
  ℕ, false, Option, none, some, List, [], ◌∷◌, String, ◌≡◌, refl, arith, inl, inr, Bool-cases,
}
use cloud_mark.Python.{Value, Fields, Result-cases}
use cloud_mark.Store.Schema.{Status, is_active, is_terminal, Task, Database, Secret}
use cloud_mark.Store.Pairing.{heartbeat_agent}
use cloud_mark.Store.Runs.{
  update_run, update_run_progress, request_cancel, ProgressReport, recover_incomplete_runs,
  task_is_active, interrupted_task,
}
use cloud_mark.Store.Tasks.{
  get_agent_task, create_agent_task, claim_agent_task, claim_row, oldest, queued_for,
  finish_agent_task, update_agent_task_progress, abort_agent_task, cancel_queued_run_tasks,
  queued_id, claimed, running_of, finished, progressed_task, active_id, aborted, queued_of_run,
  cancelled_early, insertable,
}
use cloud_mark.Store.Secrets.{check_secret}
use cloud_mark.Store.Tasks.Calls.{
  creates_run, updates_run, reports_run, requests_cancel, creates_session, adds_agent, beats,
  creates_campaign, creates_cost_observation, Call, creates, claims, finishes, reports, aborts,
  cancels, recovers, step, run_calls, or_unchanged, first_or_unchanged,
}
use cloud_mark.Store.Tasks.Advances.{
  Advances, Keeps, Keeps-refl, Keeps-append, Keeps-update, claimed-Advances, finished-Advances,
  progressed_task-Advances, aborted-Advances, cancelled_early-Advances, interrupted_task-Advances,
}
use cloud_mark.Store.Tasks.Others.{
  create_run-LeavesTasks, create_session-LeavesTasks, add_agent-LeavesTasks,
  create_campaign-LeavesTasks, create_cost_observation-LeavesTasks, Keeps-leaves,
}

create-Keeps :
    (now : ℕ) (task_id run_id session_id agent_id kind : String) (payload : Fields)
    (secret : Option Secret) (db : Database)
    → Keeps db.tasks
        (or_unchanged db
          (create_agent_task now task_id run_id session_id agent_id kind payload secret db)).tasks
unfolding create_agent_task
create-Keeps now task_id run_id session_id agent_id kind payload secret db =
    elim (Result-cases (check_secret secret)) [
      | inr (e, refused) ↦ rw (refused, create_agent_task) (Keeps-refl db.tasks)
      | inl (_, accepted) ↦ elim (Bool-cases (insertable task_id run_id session_id agent_id db)) [
        | inl fits ↦ rw (accepted, fits, create_agent_task) (Keeps-append db.tasks _)
        | inr clash ↦ rw (accepted, clash, create_agent_task) (Keeps-refl db.tasks)
      ]
    ]

claim_row-Keeps :
    (now : ℕ) (db : Database) (o : Option Task) → Keeps db.tasks (claim_row now db o).0.tasks
unfolding claim_row
claim_row-Keeps now db none = Keeps-refl db.tasks
claim_row-Keeps now db (some row) = ground (
  arith,
  Keeps-update (queued_id row.id) (claimed now) db.tasks (λ t. refl) (claimed-Advances now row.id),
)

finish-Keeps :
    (now : ℕ) (task_id agent_id : String) (s : Status) (result : Option Value)
    (error : Option String) (db : Database)
    → Keeps db.tasks
        (first_or_unchanged db (finish_agent_task now task_id agent_id s result error db)).tasks
unfolding finish_agent_task
finish-Keeps now task_id agent_id s result error db = elim (Bool-cases (is_terminal s)) [
  | inl terminal ↦
      let kept =
        Keeps-update (running_of task_id agent_id) (finished now s result error) db.tasks
          (λ t. refl) (λ t. finished-Advances now task_id agent_id s result error t terminal) in
      ground (arith, kept)
  | inr invalid ↦ rw (invalid, finish_agent_task) (Keeps-refl db.tasks)
]

report-Keeps :
    (now : ℕ) (task_id agent_id : String) (p : ProgressReport) (db : Database)
    → Keeps db.tasks (update_agent_task_progress now task_id agent_id p db).0.tasks
unfolding update_agent_task_progress
report-Keeps now task_id agent_id p db = ground (
  arith,
  Keeps-update (running_of task_id agent_id) (progressed_task now p) db.tasks (λ t. refl)
      (progressed_task-Advances now task_id agent_id p),
)

abort-Keeps :
    (now : ℕ) (task_id error : String) (db : Database)
    → Keeps db.tasks (abort_agent_task now task_id error db).0.tasks
unfolding abort_agent_task
abort-Keeps now task_id error db = ground (
  arith,
  Keeps-update (active_id task_id) (aborted now error) db.tasks (λ t. refl)
      (aborted-Advances now task_id error),
)

module _ (repr : Value → String) where
  step-Keeps : (c : ℕ × Call) (db : Database) → Keeps db.tasks (step repr c db).tasks
  unfolding step claim_agent_task cancel_queued_run_tasks recover_incomplete_runs update_run
      update_run_progress request_cancel heartbeat_agent
  step-Keeps (now, creates task_id run_id session_id agent_id kind payload secret) db =
      create-Keeps now task_id run_id session_id agent_id kind payload secret db
  step-Keeps (now, claims agent_id) db =
      claim_row-Keeps now db (oldest (queued_for agent_id) db.tasks)
  step-Keeps (now, finishes task_id agent_id s result error) db =
      finish-Keeps now task_id agent_id s result error db
  step-Keeps (now, reports task_id agent_id p) db = report-Keeps now task_id agent_id p db
  step-Keeps (now, aborts task_id error) db = abort-Keeps now task_id error db
  step-Keeps (now, cancels run_id) db =
      Keeps-update (queued_of_run run_id) (cancelled_early now) db.tasks (λ t. refl)
        (cancelled_early-Advances now run_id)
  step-Keeps (now, recovers) db =
      Keeps-update task_is_active (interrupted_task now) db.tasks (λ t. refl)
        (interrupted_task-Advances now)
  step-Keeps (now, creates_run run_id suite profile request total_steps runner methodology tool)
        db =
      Keeps-leaves (
        create_run-LeavesTasks now db repr run_id suite profile request total_steps runner
          methodology tool)
  step-Keeps (now, creates_session session_id label token expires_at topology) db =
      Keeps-leaves (create_session-LeavesTasks now db session_id label token expires_at topology)
  step-Keeps (now, adds_agent agent_id session_id name role system token_hash endpoint) db =
      Keeps-leaves
        (add_agent-LeavesTasks now db agent_id session_id name role system token_hash endpoint)
  step-Keeps (now, creates_cost_observation observation) db =
      Keeps-leaves (create_cost_observation-LeavesTasks now db repr observation)
  step-Keeps (now, creates_campaign campaign_id label target_windows contract) db =
      Keeps-leaves (create_campaign-LeavesTasks now db campaign_id label target_windows contract)
  step-Keeps (now, updates_run run_id change) db = Keeps-refl db.tasks
  step-Keeps (now, reports_run run_id report) db = Keeps-refl db.tasks
  step-Keeps (now, requests_cancel run_id) db = Keeps-refl db.tasks
  step-Keeps (now, beats agent_id system) db = Keeps-refl db.tasks

  -- Any call of the store leaves every task there, under the same id and with the same origin, moves its
  -- status only from queued to running or cancelled and from running to a final status, and does
  -- not touch the row of a task that is over.
  pub step-Advances :
      (c : ℕ × Call) (db : Database) (task_id : String) (t : Task)
      → get_agent_task db task_id ≡ some t
      → (u : Task) × (get_agent_task (step repr c db) task_id ≡ some u) × Advances t u
  unfolding get_agent_task
  step-Advances c db = step-Keeps c db

  -- A task that is over is found unchanged after any history of calls.
  pub run_calls-frozen :
      (cs : List (ℕ × Call)) (db : Database) (task_id : String) (t : Task)
      → get_agent_task db task_id ≡ some t
      → is_active t.status ≡ false
      → get_agent_task (run_calls repr cs db) task_id ≡ some t
  unfolding run_calls
  run_calls-frozen [] db task_id t e h = e
  run_calls-frozen (c ∷ cs) db task_id t e h =
      let (u, found, advances) = step-Advances c db task_id t e in
      run_calls-frozen cs (step repr c db) task_id t (rw (advances.frozen h) at found) h
