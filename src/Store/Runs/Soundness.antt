-- ===== src/Store/Runs/Soundness.antt =====
-- What every row of the table runs satisfies, after any history of calls.
use cloud_mark.Prelude.{
  Float, ℤ, Bool-cases, inl, inr, ℕ, true, Option, none, some, List, [], ◌∷◌, String, ◌≡◌, refl,
  arith, ◌≤◌, All, All-update, All-append, IsUnitInterval, clamp_unit-IsUnitInterval, is_some,
  float_one,
}
use cloud_mark.Python.{Fields, Value}
use cloud_mark.Store.Schema.{
  CostRow, Secret, Task, is_terminal, is_running, Status, Run, Database, empty,
}
use cloud_mark.Store.Runs.{
  get_run, has_run_id, RunUpdate, updated_run, update_run, ProgressReport, progressed_run,
  update_run_progress, request_cancel, active_run, cancel_marked, recover_incomplete_runs,
  run_is_active, interrupted_run, create_run, stored_progress, value_or,
}
use cloud_mark.Store.Pairing.{create_session, add_agent, heartbeat_agent}
use cloud_mark.Store.Campaigns.{create_campaign}
use cloud_mark.Store.Costs.{create_cost_observation, insert_cost}
use cloud_mark.Store.Costs.Inserting.{after_insert}
use cloud_mark.Store.Tasks.{
  create_agent_task, claim_agent_task, claim_row, oldest, queued_for, finish_agent_task,
  update_agent_task_progress, abort_agent_task, cancel_queued_run_tasks,
}
use cloud_mark.Store.Tasks.Calls.{
  first_or_unchanged, Call, creates, claims, finishes, reports, aborts, cancels, recovers,
  creates_run, updates_run, reports_run, requests_cancel, creates_session, adds_agent, beats,
  creates_campaign, creates_cost_observation, step, run_calls, or_unchanged, first_or_unchanged,
}

claim_row-runs : (now : ℕ) (db : Database) (o : Option Task) → (claim_row now db o).0.runs ≡ db.runs
unfolding claim_row
claim_row-runs now db none = refl
claim_row-runs now db (some row) = ground arith

-- The progress lies in the unit interval, there is at least one step, a run that is over has an end,
-- and a run that is running has a start.
pub record IsSound (r : Run) : Type 0 where
  pub progress_fits : IsUnitInterval r.progress
  pub some_steps : 1 ≤ r.total_steps
  pub ended : is_terminal r.status ≡ true → is_some r.finished_at ≡ true
  pub begun : is_running r.status ≡ true → is_some r.started_at ≡ true

stored-IsUnitInterval :
    (s : Status) (o : Option Float) (x : Float)
    → IsUnitInterval x
    → IsUnitInterval (value_or x (stored_progress s o))
unfolding stored_progress value_or
stored-IsUnitInterval s none x h = ground (arith, clamp_unit-IsUnitInterval float_one)
stored-IsUnitInterval s (some y) x h = clamp_unit-IsUnitInterval y

updated-IsSound : (now : ℕ) (u : RunUpdate) (r : Run) → IsSound r → IsSound (updated_run now u r)
unfolding updated_run
updated-IsSound now u r h = record {
  progress_fits = stored-IsUnitInterval u.status u.progress r.progress h.progress_fits;
  some_steps = h.some_steps;
  ended = λ over. rw over;
  begun = λ runs. rw runs;
}

progressed-IsSound :
    (now : ℕ) (p : ProgressReport) (r : Run) → IsSound r → IsSound (progressed_run now p r)
unfolding progressed_run
progressed-IsSound now p r h = record {
  progress_fits = clamp_unit-IsUnitInterval p.progress;
  some_steps = omega arith;
  ended = h.ended;
  begun = h.begun;
}

marked-IsSound : (now : ℕ) (r : Run) → IsSound r → IsSound (cancel_marked now r)
marked-IsSound now r h = record {
  progress_fits = h.progress_fits;
  some_steps = h.some_steps;
  ended = h.ended;
  begun = h.begun;
}

interrupted-IsSound : (now : ℕ) (r : Run) → IsSound r → IsSound (interrupted_run now r)
interrupted-IsSound now r h = record {
  progress_fits = h.progress_fits;
  some_steps = h.some_steps;
  ended = λ _. refl;
  begun = λ runs. cc;
}

abbrev AllSound : Database → Type 0
AllSound db = All IsSound db.runs

module _ (now : ℕ) (db : Database) where
  create_agent_task-runs :
      (task_id run_id session_id agent_id kind : String) (payload : Fields) (secret : Option Secret)
      → (or_unchanged db
          (create_agent_task now task_id run_id session_id agent_id kind payload secret db)).runs
        ≡ db.runs
  unfolding create_agent_task
  create_agent_task-runs task_id run_id session_id agent_id kind payload secret = ground arith

  finish_agent_task-runs :
      (task_id agent_id : String) (s : Status) (result : Option Value) (error : Option String)
      → (first_or_unchanged db (finish_agent_task now task_id agent_id s result error db)).runs
        ≡ db.runs
  unfolding finish_agent_task
  finish_agent_task-runs task_id agent_id s result error = ground arith

  report-runs :
      (task_id agent_id : String) (p : ProgressReport)
      → (update_agent_task_progress now task_id agent_id p db).0.runs ≡ db.runs
  unfolding update_agent_task_progress
  report-runs task_id agent_id p = ground arith

  abort-runs : (task_id error : String) → (abort_agent_task now task_id error db).0.runs ≡ db.runs
  unfolding abort_agent_task
  abort-runs task_id error = ground arith

  create_session-runs :
      (session_id label token expires_at : String) (topology : Option Fields)
      → (or_unchanged db (create_session now session_id label token expires_at topology db)).runs
        ≡ db.runs
  unfolding create_session
  create_session-runs session_id label token expires_at topology = ground arith

  add_agent-runs :
      (agent_id session_id name role : String) (system : Fields) (token_hash : String)
      (endpoint : Option Fields)
      → (or_unchanged db
          (add_agent now agent_id session_id name role system token_hash endpoint db)).runs
        ≡ db.runs
  unfolding add_agent
  add_agent-runs agent_id session_id name role system token_hash endpoint = ground arith

  insert_cost-runs :
      (observation : Fields) (row : CostRow)
      → row.observation ≡ observation
      → (or_unchanged db (insert_cost row db)).runs ≡ db.runs
  unfolding insert_cost
  insert_cost-runs observation row e = ground arith

  create_cost_observation-runs :
      (repr : Value → String) (observation : Fields)
      → (or_unchanged db (create_cost_observation repr observation db)).runs ≡ db.runs
  create_cost_observation-runs repr observation =
      after_insert (λ z. z.runs ≡ db.runs) db refl repr observation (insert_cost-runs observation)

  create_campaign-runs :
      (campaign_id label : String) (target_windows : ℕ) (contract : Fields)
      → (or_unchanged db (create_campaign now campaign_id label target_windows contract db)).runs
        ≡ db.runs
  unfolding create_campaign
  create_campaign-runs campaign_id label target_windows contract = ground arith

module _ (repr : Value → String) (now : ℕ) (db : Database) (h : AllSound db) where
  create_run-AllSound :
      (run_id suite profile : String) (request : Fields) (total_steps : ℤ)
      (runner methodology tool : Option String)
      → AllSound (
          or_unchanged db
            (create_run repr run_id suite profile request total_steps runner methodology tool db))
  unfolding create_run
  create_run-AllSound run_id suite profile request total_steps runner methodology tool =
      elim (Bool-cases (is_some (get_run db run_id))) [
        | inl clash ↦ rw clash h
        | inr fresh ↦ rw fresh (
            All-append IsSound db.runs _ h (
              record {
                progress_fits = (refl, refl);
                some_steps = omega arith;
                ended = λ over. cc;
                begun = λ runs. cc;
              },
              tt,
            ))
      ]

  step-AllSound : (c : Call) → AllSound (step repr (now, c) db)
  unfolding step update_run update_run_progress request_cancel recover_incomplete_runs
      claim_agent_task cancel_queued_run_tasks update_agent_task_progress abort_agent_task
      heartbeat_agent
  step-AllSound (creates task_id run_id session_id agent_id kind payload secret) =
      rw (create_agent_task-runs now db task_id run_id session_id agent_id kind payload secret) h
  step-AllSound (claims agent_id) =
      rw (claim_row-runs now db (oldest (queued_for agent_id) db.tasks)) h
  step-AllSound (finishes task_id agent_id s result error) =
      rw (finish_agent_task-runs now db task_id agent_id s result error) h
  step-AllSound (reports task_id agent_id p) = rw (report-runs now db task_id agent_id p) h
  step-AllSound (aborts task_id error) = rw (abort-runs now db task_id error) h
  step-AllSound (cancels run_id) = h
  step-AllSound recovers =
      All-update run_is_active (interrupted_run now) db.runs (λ r p _. interrupted-IsSound now r p)
        h
  step-AllSound (creates_run run_id suite profile request total_steps runner methodology tool) =
      create_run-AllSound run_id suite profile request total_steps runner methodology tool
  step-AllSound (updates_run run_id u) =
      All-update (has_run_id run_id) (updated_run now u) db.runs
        (λ r p _. updated-IsSound now u r p) h
  step-AllSound (reports_run run_id p) =
      All-update (has_run_id run_id) (progressed_run now p) db.runs
        (λ r q _. progressed-IsSound now p r q) h
  step-AllSound (requests_cancel run_id) =
      All-update (active_run run_id) (cancel_marked now) db.runs (λ r p _. marked-IsSound now r p) h
  step-AllSound (creates_session session_id label token expires_at topology) =
      rw (create_session-runs now db session_id label token expires_at topology) h
  step-AllSound (adds_agent agent_id session_id name role system token_hash endpoint) =
      rw (add_agent-runs now db agent_id session_id name role system token_hash endpoint) h
  step-AllSound (beats agent_id system) = h
  step-AllSound (creates_cost_observation observation) =
      rw (create_cost_observation-runs now db repr observation) h
  step-AllSound (creates_campaign campaign_id label target_windows contract) =
      rw (create_campaign-runs now db campaign_id label target_windows contract) h

module _ (repr : Value → String) where
  from-AllSound :
      (cs : List (ℕ × Call)) (db : Database) → AllSound db → AllSound (run_calls repr cs db)
  unfolding run_calls
  from-AllSound [] db h = h
  from-AllSound ((now, c) ∷ cs) db h =
      from-AllSound cs (step repr (now, c) db) (step-AllSound repr now db h c)

  -- After any history of calls on an empty store every run has a progress in the unit interval and at
  -- least one step, an end time if it is completed, failed or cancelled, and a start time if it is
  -- running.
  pub run_calls-IsSound : (cs : List (ℕ × Call)) → All IsSound (run_calls repr cs empty).runs
  run_calls-IsSound cs = from-AllSound cs empty tt
