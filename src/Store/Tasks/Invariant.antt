-- ===== src/Store/Tasks/Invariant.antt =====
-- The invariant of the table agent_tasks and of the secrets in memory, over histories of calls.
use cloud_mark.Prelude.{ℕ, List, [], ◌∷◌, String, refl}
use cloud_mark.Python.{Value}
use cloud_mark.Store.Schema.{Database, empty}
use cloud_mark.Store.Pairing.{heartbeat_agent}
use cloud_mark.Store.Tasks.Others.{
  LeavesTasks, leaves, create_run-LeavesTasks, create_session-LeavesTasks, add_agent-LeavesTasks,
  create_campaign-LeavesTasks, create_cost_observation-LeavesTasks,
}
use cloud_mark.Store.Runs.{update_run, update_run_progress, request_cancel}
use cloud_mark.Store.Tasks.{claim_agent_task, oldest, queued_for}
use cloud_mark.Store.Tasks.Calls.{
  creates_run, updates_run, reports_run, requests_cancel, creates_session, adds_agent, beats,
  creates_campaign, creates_cost_observation, Call, creates, claims, finishes, reports, aborts,
  cancels, recovers, step, run_calls,
}
use cloud_mark.Store.Tasks.WellFormed.{
  IsWellFormed, empty-IsWellFormed, create-IsWellFormed, claim_row-IsWellFormed,
  report-IsWellFormed, cancel-IsWellFormed, recover-IsWellFormed, abort-IsWellFormed,
  finish-IsWellFormed,
}

leaves-IsWellFormed :
    {db after : Database} → LeavesTasks db after → IsWellFormed db → IsWellFormed after
leaves-IsWellFormed (leaves tasks secrets) w = record {
  distinct = rw tasks w.distinct;
  bounded = rw tasks w.bounded;
  current = rw (tasks, secrets) w.current;
}

module _ (repr : Value → String) where
  -- Every call of the store keeps the invariant.
  pub step-IsWellFormed :
      (c : ℕ × Call) (db : Database) → IsWellFormed db → IsWellFormed (step repr c db)
  unfolding step claim_agent_task update_run update_run_progress request_cancel heartbeat_agent
  step-IsWellFormed (now, creates task_id run_id session_id agent_id kind payload secret) db w =
      create-IsWellFormed db w now task_id run_id session_id agent_id kind payload secret
  step-IsWellFormed (now, claims agent_id) db w =
      claim_row-IsWellFormed db w now (oldest (queued_for agent_id) db.tasks)
  step-IsWellFormed (now, finishes task_id agent_id s result error) db w =
      finish-IsWellFormed db w now task_id agent_id s result error
  step-IsWellFormed (now, reports task_id agent_id p) db w =
      report-IsWellFormed db w now task_id agent_id p
  step-IsWellFormed (now, aborts task_id error) db w = abort-IsWellFormed db w now task_id error
  step-IsWellFormed (now, cancels run_id) db w = cancel-IsWellFormed db w now run_id
  step-IsWellFormed (now, recovers) db w = recover-IsWellFormed db w now
  step-IsWellFormed
        (now, creates_run run_id suite profile request total_steps runner methodology tool) db w =
      leaves-IsWellFormed
        (create_run-LeavesTasks now db repr run_id suite profile request total_steps runner
          methodology tool)
        w
  step-IsWellFormed (now, creates_session session_id label token expires_at topology) db w =
      leaves-IsWellFormed
        (create_session-LeavesTasks now db session_id label token expires_at topology) w
  step-IsWellFormed (now, adds_agent agent_id session_id name role system token_hash endpoint) db
        w =
      leaves-IsWellFormed
        (add_agent-LeavesTasks now db agent_id session_id name role system token_hash endpoint) w
  step-IsWellFormed (now, creates_cost_observation observation) db w =
      leaves-IsWellFormed (create_cost_observation-LeavesTasks now db repr observation) w
  step-IsWellFormed (now, creates_campaign campaign_id label target_windows contract) db w =
      leaves-IsWellFormed
        (create_campaign-LeavesTasks now db campaign_id label target_windows contract) w
  step-IsWellFormed (now, updates_run run_id change) db w = leaves-IsWellFormed (leaves refl refl) w
  step-IsWellFormed (now, reports_run run_id report) db w = leaves-IsWellFormed (leaves refl refl) w
  step-IsWellFormed (now, requests_cancel run_id) db w = leaves-IsWellFormed (leaves refl refl) w
  step-IsWellFormed (now, beats agent_id system) db w = leaves-IsWellFormed (leaves refl refl) w

  pub from-IsWellFormed :
      (cs : List (ℕ × Call)) (db : Database) → IsWellFormed db → IsWellFormed (run_calls repr cs db)
  unfolding run_calls
  from-IsWellFormed [] db w = w
  from-IsWellFormed (c ∷ cs) db w = from-IsWellFormed cs (step repr c db) (step-IsWellFormed c db w)

  -- After any history of calls on an empty store no two tasks share an id, every task's progress lies in
  -- the unit interval, and every secret that the Controller still holds in memory belongs to a task
  -- that is queued or running.
  pub run_calls-IsWellFormed : (cs : List (ℕ × Call)) → IsWellFormed (run_calls repr cs empty)
  run_calls-IsWellFormed cs = from-IsWellFormed cs empty empty-IsWellFormed
