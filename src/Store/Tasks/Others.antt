-- ===== src/Store/Tasks/Others.antt =====
-- The calls on the other tables.
use cloud_mark.Prelude.{ℤ, ℕ, Option, String, ◌≡◌, refl, arith}
use cloud_mark.Python.{Value, Fields}
use cloud_mark.Store.Schema.{CostRow, Database}
use cloud_mark.Store.Pairing.{create_session, add_agent}
use cloud_mark.Store.Campaigns.{create_campaign}
use cloud_mark.Store.Costs.{create_cost_observation, insert_cost}
use cloud_mark.Store.Costs.Inserting.{after_insert}
use cloud_mark.Store.Runs.{create_run}
use cloud_mark.Store.Tasks.Calls.{or_unchanged}
use cloud_mark.Store.Tasks.Advances.{Keeps, Keeps-refl}

-- The calls on the other tables leave the tasks and the secrets alone.
pub data LeavesTasks (db after : Database) : Type 0 where
  leaves : after.tasks ≡ db.tasks → after.secrets ≡ db.secrets → LeavesTasks db after

module _ (now : ℕ) (db : Database) where
  pub create_run-LeavesTasks :
      (repr : Value → String) (run_id suite profile : String) (request : Fields) (total_steps : ℤ)
      (runner methodology tool : Option String)
      → LeavesTasks db (
          or_unchanged db
            (create_run repr run_id suite profile request total_steps runner methodology tool db))
  unfolding create_run
  create_run-LeavesTasks repr run_id suite profile request total_steps runner methodology tool =
      leaves (ground arith) (ground arith)

  pub create_session-LeavesTasks :
      (session_id label token expires_at : String) (topology : Option Fields)
      → LeavesTasks db
          (or_unchanged db (create_session now session_id label token expires_at topology db))
  unfolding create_session
  create_session-LeavesTasks session_id label token expires_at topology =
      leaves (ground arith) (ground arith)

  pub add_agent-LeavesTasks :
      (agent_id session_id name role : String) (system : Fields) (token_hash : String)
      (endpoint : Option Fields)
      → LeavesTasks db (
          or_unchanged db
            (add_agent now agent_id session_id name role system token_hash endpoint db))
  unfolding add_agent
  add_agent-LeavesTasks agent_id session_id name role system token_hash endpoint =
      leaves (ground arith) (ground arith)

  pub create_campaign-LeavesTasks :
      (campaign_id label : String) (target_windows : ℕ) (contract : Fields)
      → LeavesTasks db
          (or_unchanged db (create_campaign now campaign_id label target_windows contract db))
  unfolding create_campaign
  create_campaign-LeavesTasks campaign_id label target_windows contract =
      leaves (ground arith) (ground arith)

  insert_cost-LeavesTasks :
      (observation : Fields) (row : CostRow)
      → row.observation ≡ observation
      → LeavesTasks db (or_unchanged db (insert_cost row db))
  unfolding insert_cost
  insert_cost-LeavesTasks observation row e = leaves (ground arith) (ground arith)

  pub create_cost_observation-LeavesTasks :
      (repr : Value → String) (observation : Fields)
      → LeavesTasks db (or_unchanged db (create_cost_observation repr observation db))
  create_cost_observation-LeavesTasks repr observation =
      after_insert (LeavesTasks db) db (leaves refl refl) repr observation
        (insert_cost-LeavesTasks observation)

pub Keeps-leaves : {db after : Database} → LeavesTasks db after → Keeps db.tasks after.tasks
Keeps-leaves {db} (leaves tasks secrets) = rw tasks (Keeps-refl db.tasks)
