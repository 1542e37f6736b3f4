-- ===== src/Store/Costs/Immutable.antt =====
-- cloudmark/database.py: no call of the store changes or removes a cost observation.
use mathlib.Core.List.{append-nil, append_assoc}
use cloud_mark.Prelude.{
  ℕ, List, [], ◌∷◌, ◌++◌, String, str_eq, any, ◌≡◌, refl, sym, ◌∙◌, ap, arith, Bool-cases, inl, inr,
  All, All-append, subst,
}
use cloud_mark.Python.{Value, Fields}
use cloud_mark.Store.Schema.{CostRow, Database}
use cloud_mark.Store.Runs.{
  create_run, update_run, update_run_progress, request_cancel, recover_incomplete_runs,
}
use cloud_mark.Store.Pairing.{create_session, add_agent, heartbeat_agent}
use cloud_mark.Store.Campaigns.{create_campaign}
use cloud_mark.Store.Costs.{insert_cost}
use cloud_mark.Store.Costs.Inserting.{after_insert}
use cloud_mark.Store.Tasks.{
  create_agent_task, claim_agent_task, claim_row, finish_agent_task, update_agent_task_progress,
  abort_agent_task, cancel_queued_run_tasks,
}
use cloud_mark.Store.Tasks.Calls.{
  or_unchanged, Call, creates, claims, finishes, reports, aborts, cancels, recovers, creates_run,
  updates_run, reports_run, requests_cancel, creates_session, adds_agent, beats, creates_campaign,
  creates_cost_observation, step, run_calls,
}

-- The later rows are the earlier ones and some new ones behind them, which have the property.
pub data Extends (P : Fields → Type 0) (before after : List CostRow) : Type 0 where
  extends :
      (new : List CostRow)
      → after ≡ before ++ new
      → All (λ row. P row.observation) new
      → Extends P before after

-- What a call stores has the property.
abbrev pub Stores : (Fields → Type 0) → ℕ × Call → Type 0
Stores P (now, creates_cost_observation observation) = P observation
Stores P _ = Unit

module _ (P : Fields → Type 0) where
  Extends-refl : (rows : List CostRow) → Extends P rows rows
  Extends-refl rows = extends [] (sym (append-nil rows)) tt

  Extends-trans : {a b c : List CostRow} → Extends P a b → Extends P b c → Extends P a c
  Extends-trans {a} (extends m e ms) (extends n f ns) =
      extends (m ++ n) (f ∙ ap (λ z. z ++ n) e ∙ append_assoc a m n)
        (All-append (λ row. P row.observation) m n ms ns)

  kept : {before after : List CostRow} → after ≡ before → Extends P before after
  kept {before} e = rw e (Extends-refl before)

  insert_cost-Extends :
      (db : Database) (observation : Fields) (p : P observation) (row : CostRow)
      → row.observation ≡ observation
      → Extends P db.cost_observations (or_unchanged db (insert_cost row db)).cost_observations
  unfolding insert_cost
  insert_cost-Extends db observation p row same =
      elim (Bool-cases (any (λ r. str_eq r.id row.id) db.cost_observations)) [
        | inl clash ↦ rw clash (Extends-refl db.cost_observations)
        | inr fresh ↦ rw fresh (extends (row ∷ []) refl (subst P (sym same) p, tt))
      ]

module _ (P : Fields → Type 0) (repr : Value → String) (now : ℕ) (db : Database) where
  step-Extends :
      (c : Call)
      → Stores P (now, c)
      → Extends P db.cost_observations (step repr (now, c) db).cost_observations
  unfolding step update_run update_run_progress request_cancel recover_incomplete_runs
      claim_agent_task cancel_queued_run_tasks update_agent_task_progress abort_agent_task
      heartbeat_agent create_run create_agent_task finish_agent_task create_session add_agent
      create_campaign claim_row
  step-Extends (creates task_id run_id session_id agent_id kind payload secret) stored =
      kept P (ground arith)
  step-Extends (claims agent_id) stored = kept P (ground arith)
  step-Extends (finishes task_id agent_id s result error) stored = kept P (ground arith)
  step-Extends (reports task_id agent_id p) stored = kept P (ground arith)
  step-Extends (aborts task_id error) stored = kept P (ground arith)
  step-Extends (cancels run_id) stored = kept P refl
  step-Extends recovers stored = kept P refl
  step-Extends (creates_run run_id suite profile request total_steps runner methodology tool)
        stored =
      kept P (ground arith)
  step-Extends (updates_run run_id change) stored = kept P refl
  step-Extends (reports_run run_id p) stored = kept P refl
  step-Extends (requests_cancel run_id) stored = kept P refl
  step-Extends (creates_session session_id label token expires_at topology) stored =
      kept P (ground arith)
  step-Extends (adds_agent agent_id session_id name role system token_hash endpoint) stored =
      kept P (ground arith)
  step-Extends (beats agent_id system) stored = kept P refl
  step-Extends (creates_campaign campaign_id label target_windows contract) stored =
      kept P (ground arith)
  step-Extends (creates_cost_observation observation) stored =
      after_insert (λ z. Extends P db.cost_observations z.cost_observations) db
        (Extends-refl P db.cost_observations) repr observation
        (insert_cost-Extends P db observation stored)

-- A stored cost observation is immutable: any history of calls leaves the rows as they are, in their order,
-- and only adds rows behind them. What is true of every observation that the history stores is true of the
-- added ones.
pub run_calls-Extends :
    (P : Fields → Type 0) (repr : Value → String) (cs : List (ℕ × Call)) (db : Database)
    → All (Stores P) cs
    → Extends P db.cost_observations (run_calls repr cs db).cost_observations
unfolding run_calls
run_calls-Extends P repr [] db stored = Extends-refl P db.cost_observations
run_calls-Extends P repr ((now, c) ∷ cs) db (first, stored) =
    Extends-trans P (step-Extends P repr now db c first)
      (run_calls-Extends P repr cs (step repr (now, c) db) stored)
