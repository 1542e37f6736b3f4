-- ===== src/Store/Tasks/Calls.antt =====
-- The methods of the store that change its state as one type of calls, so that a history of the
-- Controller is a list.
use cloud_mark.Prelude.{ℕ, ℤ, Option, List, [], ◌∷◌, String}
use cloud_mark.Python.{Value, Fields, Result, ok, raise}
use cloud_mark.Store.Schema.{Status, Secret, Database}
use cloud_mark.Store.Runs.{
  ProgressReport, RunUpdate, recover_incomplete_runs, create_run, update_run, update_run_progress,
  request_cancel,
}
use cloud_mark.Store.Pairing.{create_session, add_agent, heartbeat_agent}
use cloud_mark.Store.Campaigns.{create_campaign}
use cloud_mark.Store.Costs.{create_cost_observation}
use cloud_mark.Store.Tasks.{
  create_agent_task, claim_agent_task, finish_agent_task, update_agent_task_progress,
  abort_agent_task, cancel_queued_run_tasks,
}

pub data Call : Type 0 where
  creates :
      (task_id run_id session_id agent_id kind : String) (payload : Fields) (secret : Option Secret)
      → Call
  claims : (agent_id : String) → Call
  finishes :
      (task_id agent_id : String) (status : Status) (result : Option Value) (error : Option String)
      → Call
  reports : (task_id agent_id : String) (report : ProgressReport) → Call
  aborts : (task_id error : String) → Call
  cancels : (run_id : String) → Call
  recovers : Call
  creates_run :
      (run_id suite profile : String) (request : Fields) (total_steps : ℤ)
      (runner_version methodology_version tool_version : Option String)
      → Call
  updates_run : (run_id : String) (change : RunUpdate) → Call
  reports_run : (run_id : String) (report : ProgressReport) → Call
  requests_cancel : (run_id : String) → Call
  creates_session :
      (session_id label join_token_hash expires_at : String) (topology : Option Fields) → Call
  adds_agent :
      (agent_id session_id name role : String) (system : Fields) (token_hash : String)
      (endpoint : Option Fields)
      → Call
  beats : (agent_id : String) (system : Option Fields) → Call
  creates_cost_observation : (observation : Fields) → Call
  creates_campaign : (campaign_id label : String) (target_windows : ℕ) (contract : Fields) → Call

-- An exception rolls the transaction back.
abbrev pub or_unchanged : Database → Result Database → Database
or_unchanged db (ok after) = after
or_unchanged db (raise e) = db

abbrev pub first_or_unchanged {ℓ} : {A : Type ℓ} → Database → Result (Database × A) → Database
first_or_unchanged db (ok (after, a)) = after
first_or_unchanged db (raise e) = db

module _ (repr : Value → String) where
  unfoldable pub step : ℕ × Call → Database → Database
  step (now, creates task_id run_id session_id agent_id kind payload secret) db =
      or_unchanged db
        (create_agent_task now task_id run_id session_id agent_id kind payload secret db)
  step (now, claims agent_id) db = (claim_agent_task now agent_id db).0
  step (now, finishes task_id agent_id status result error) db =
      first_or_unchanged db (finish_agent_task now task_id agent_id status result error db)
  step (now, reports task_id agent_id report) db =
      (update_agent_task_progress now task_id agent_id report db).0
  step (now, aborts task_id error) db = (abort_agent_task now task_id error db).0
  step (now, cancels run_id) db = (cancel_queued_run_tasks now run_id db).0
  step (now, recovers) db = (recover_incomplete_runs now db).0
  step (now, creates_run run_id suite profile request total_steps runner methodology tool) db =
      or_unchanged db
        (create_run repr run_id suite profile request total_steps runner methodology tool db)
  step (now, updates_run run_id change) db = update_run now run_id change db
  step (now, reports_run run_id report) db = update_run_progress now run_id report db
  step (now, requests_cancel run_id) db = (request_cancel now run_id db).0
  step (now, creates_session session_id label token expires_at topology) db =
      or_unchanged db (create_session now session_id label token expires_at topology db)
  step (now, adds_agent agent_id session_id name role system token_hash endpoint) db =
      or_unchanged db (add_agent now agent_id session_id name role system token_hash endpoint db)
  step (now, beats agent_id system) db = (heartbeat_agent now agent_id system db).0
  step (now, creates_cost_observation observation) db =
      or_unchanged db (create_cost_observation repr observation db)
  step (now, creates_campaign campaign_id label target_windows contract) db =
      or_unchanged db (create_campaign now campaign_id label target_windows contract db)

  unfoldable pub run_calls : List (ℕ × Call) → Database → Database
  run_calls [] db = db
  run_calls (c ∷ cs) db = run_calls cs (step c db)
