-- ===== src/Samples/Tables.antt =====
-- Worked examples of the tasks in the store.
use cloud_mark.Prelude.{
  ◌+◌, String, ℕ, none, some, List, [], ◌∷◌, String, ◌≡◌, ◌≢◌, refl, true, false, str_eq,
  select_one, update, row_count,
}
use cloud_mark.Python.{Value, ok, raise, value_error}
use cloud_mark.Store.Schema.{Run, Task, Database, empty, completed, queued, is_terminal}
use cloud_mark.Store.Tasks.{get_agent_task, claim_agent_task, finish_agent_task, claimed}
use cloud_mark.Store.Runs.{get_run, recover_incomplete_runs, run_is_active, task_is_active}
use cloud_mark.Store.Tasks.Calls.{Call, claims, finishes, aborts, step, run_calls, recovers}
use cloud_mark.Store.Tasks.Lifecycle.{step-Advances, run_calls-frozen}
use cloud_mark.Store.Tasks.Advances.{Advances}
use cloud_mark.Store.Tasks.Invariant.{run_calls-IsWellFormed}
use cloud_mark.Store.Tasks.WellFormed.{IsWellFormed}
use cloud_mark.Store.Tasks.Claiming.{Claims, claim_agent_task_lem, claim-claim_ne}
use cloud_mark.Store.Tasks.Finishing.{
  finish_agent_task-accepts, accepts, finished_row, recover_incomplete_runs-none_active,
  run_is_failed, IsRecoveredRun, IsRecoveredTask,
}
use cloud_mark.Samples.{controller, waiting_task, running_task, secret}

abbrev text : Value → String
text v = "1"

controller-IsWellFormed : IsWellFormed controller
unfolding str_eq select_one
controller-IsWellFormed = record {
  distinct = (refl, (refl, tt));
  bounded = ((refl, refl), ((refl, refl), tt));
  current = (record { task = waiting_task; found = refl; active = refl }, tt);
}

abbrev ended_task : Task
ended_task = record waiting_task { status = completed; finished_at = some 45 }

abbrev ended : Database
ended = record controller { tasks = ended_task ∷ running_task ∷ []; secrets = [] }

-- The first claim, then the end of the claimed task, then a claim of the other Agent.
abbrev history : List (ℕ × Call)
history = (60, finishes "t1" "a1" completed none none) ∷ (70, claims "a2") ∷ []

abbrev second_task : Task
second_task = record running_task { id = "t3"; status = queued }

-- A later task of the other Agent waits, too.
abbrev busier : Database
busier = record controller { tasks = waiting_task ∷ running_task ∷ second_task ∷ [] }

busier-IsWellFormed : IsWellFormed busier
unfolding str_eq select_one
busier-IsWellFormed = record {
  distinct = (refl, (refl, (refl, tt)));
  bounded = ((refl, refl), ((refl, refl), ((refl, refl), tt)));
  current = (record { task = waiting_task; found = refl; active = refl }, tt);
}

claim-claim_ne_example : second_task.id ≢ waiting_task.id
unfolding str_eq claim_agent_task run_calls row_count select_one update step finish_agent_task
claim-claim_ne_example =
    claim-claim_ne text 50 80 "a1" "a2" busier ((60, finishes "t1" "a1" completed none none) ∷ [])
      (claimed 50 waiting_task) (claimed 80 second_task) (some secret) none busier-IsWellFormed refl
      refl

run_calls-IsWellFormed_example : IsWellFormed (run_calls text history empty)
run_calls-IsWellFormed_example = run_calls-IsWellFormed text history

step-Advances_example :
    (u : Task) × (get_agent_task (step text (50, claims "a1") controller) "t1" ≡ some u)
    × Advances waiting_task u
unfolding str_eq get_agent_task select_one
step-Advances_example = step-Advances text (50, claims "a1") controller "t1" waiting_task refl

run_calls-frozen_example :
    get_agent_task (run_calls text ((50, aborts "t1" "late") ∷ (51, recovers) ∷ []) ended) "t1"
    ≡ some ended_task
unfolding str_eq get_agent_task select_one
run_calls-frozen_example =
    run_calls-frozen text ((50, aborts "t1" "late") ∷ (51, recovers) ∷ []) ended "t1" ended_task
      refl refl

claim_agent_task_example : Claims 50 "a1" controller (claim_agent_task 50 "a1" controller)
claim_agent_task_example = claim_agent_task_lem 50 "a1" controller controller-IsWellFormed

finish_agent_task-accepts_example :
    (is_terminal completed ≡ false
      → finish_agent_task 60 "t2" "a2" completed none none controller
        ≡ raise (value_error "Agent task status must be completed, failed, or cancelled."))
    × (is_terminal completed ≡ true
        → (after : Database) × (finish_agent_task 60 "t2" "a2" completed none none controller
            ≡ ok (after, accepts "a2" (get_agent_task controller "t2")))
          × ((t : Task)
              → get_agent_task controller "t2" ≡ some t
              → get_agent_task after "t2" ≡ some (finished_row 60 "t2" "a2" completed none none t)))
finish_agent_task-accepts_example =
    finish_agent_task-accepts 60 "t2" "a2" completed none none controller controller-IsWellFormed

recover_incomplete_runs-none_active_example :
    let (after, failed_runs) = recover_incomplete_runs 60 controller in
    (row_count run_is_active after.runs ≡ 0)
    × (row_count task_is_active after.tasks ≡ 0)
    × (failed_runs ≡ row_count run_is_active controller.runs)
    × (after.secrets ≡ [])
    × (row_count run_is_failed after.runs ≡ failed_runs + row_count run_is_failed controller.runs)
    × ((run_id : String) (r : Run)
        → get_run controller run_id ≡ some r
        → (r_after : Run) × (get_run after run_id ≡ some r_after) × IsRecoveredRun 60 r r_after)
    × ((task_id : String) (t : Task)
        → get_agent_task controller task_id ≡ some t
        → (t_after : Task) × (get_agent_task after task_id ≡ some t_after)
          × IsRecoveredTask 60 t t_after)
recover_incomplete_runs-none_active_example = recover_incomplete_runs-none_active 60 controller
