-- ===== src/Samples/Jobs.antt =====
-- Worked examples of job contexts, dispatched benchmarks and waits.
use cloud_mark.Prelude.{
  update, row_count, Option, none, some, List, [], ◌∷◌, String, ◌≡◌, refl, true, false, str_eq,
  select_one, is_some,
}
use cloud_mark.Python.{Value, Fields, dict, str, field, end, ok, raise, Result, Exception}
use cloud_mark.Store.Schema.{Task, Database, completed}
use cloud_mark.Store.Tasks.{claim_agent_task, finish_agent_task, get_agent_task}
use cloud_mark.Store.Tasks.Calls.{step, claims, finishes}
use cloud_mark.Runner.{JobContext, JobCall, reports_phase, completes_step, new_context, run_job}
use cloud_mark.Runner.Progress.{IsOrderly, run_job-IsOrderly}
use cloud_mark.Remote.{remote_default_timeout, validate_remote_agent}
use cloud_mark.Remote.Planning.{IsPlanned, remote_default_timeout-IsPlanned}
use cloud_mark.Remote.Admission.{IsAdmitted, validate_remote_agent-IsAdmitted}
use cloud_mark.Remote.Dispatching.{Poll, task_payload, run_remote_benchmark}
use cloud_mark.Remote.Outcome.{run_remote_benchmark-ends}
use Prim.Native.String.{◌++◌ as ◌++ₛ◌}
use cloud_mark.Remote.Ordering.{IsFor}
use cloud_mark.Remote.Attribution.{
  IsOver, run_remote_benchmark-IsOver, IsAttributed, run_remote_benchmark-IsAttributed,
}
use cloud_mark.Distributed.Waiting.{
  Turn, wait_task, IsDelivered, wait_task-ends, wait_task-IsDelivered,
}
use cloud_mark.Samples.{platform, controller, target, running_task}

abbrev calls : List JobCall
calls =
    reports_phase 10 false "preparing" none none
    ∷ completes_step 20 false "running" (some "integer-single") none
    ∷ completes_step 30 true "running" none none
    ∷ []

run_job-IsOrderly_example : IsOrderly (run_job platform calls (new_context "r1" 3 198 true 0)).0
run_job-IsOrderly_example = run_job-IsOrderly platform "r1" 3 198 true 0 calls

remote_default_timeout_example : IsPlanned "compute" "compute-quick" 286
unfolding remote_default_timeout select_one
remote_default_timeout_example = remote_default_timeout-IsPlanned "compute" "compute-quick" 286 refl

-- The state before a dispatch: the target has nothing to do.
abbrev free : Database
free = record controller { tasks = running_task ∷ []; secrets = [] }

validate_remote_agent_example : IsAdmitted 60 "a1" "compute" "compute-quick" free target
unfolding validate_remote_agent select_one
validate_remote_agent_example =
    validate_remote_agent-IsAdmitted 60 "a1" "compute" "compute-quick" free target refl

abbrev context : JobContext
context = new_context "r1" 3 198 true 0

abbrev benchmark : Fields
benchmark = field "suite" (str "compute") (
    field "profile" (str "compute-quick")
      (field "profile_version" (str "1.0") (field "methodology_version" (str "compute-v1") end)))

abbrev envelope : Value
envelope =
    dict (field "protocol_version" (str "remote-agent-v1") (field "benchmark" (dict benchmark) end))

-- The Agent claims the task and completes it between two looks of the Controller.
abbrev polls : List Poll
polls =
    (record { before = []; meanwhile = []; monotonic = 1; now = 70; cancelled = false })
    ∷ (record {
      before = (75, claims "a1") ∷ (80, finishes "t9" "a1" completed (some envelope) none) ∷ [];
      meanwhile = [];
      monotonic = 2;
      now = 90;
      cancelled = false;
    })
    ∷ []

-- The operator cancels the run while it waits.
abbrev cancelled_polls : List Poll
cancelled_polls =
    (record {
      before = (75, claims "a1") ∷ [];
      meanwhile = [];
      monotonic = 1;
      now = 76;
      cancelled = true;
    })
    ∷ []

abbrev other_text : Exception → String
other_text e = "error"

abbrev outcome : List Poll → Option (Database × Result Fields)
outcome ps =
    run_remote_benchmark platform other_text 65 "t9" "r1" target "compute" "compute-quick" 198
      context ps free

abbrev store_after : Option (Database × Result Fields) → Database
store_after none = free
store_after (some (db, r)) = db

abbrev fields_of : Option (Database × Result Fields) → Fields
fields_of none = end
fields_of (some (db, ok fs)) = fs
fields_of (some (db, raise e)) = end

abbrev result_of : Option (Database × Result Fields) → Result Fields
result_of none = ok end
result_of (some (db, r)) = r

run_remote_benchmark-IsOver_example : IsOver "t9" (store_after (outcome cancelled_polls))
unfolding get_agent_task select_one str_eq run_remote_benchmark
run_remote_benchmark-IsOver_example =
    run_remote_benchmark-IsOver platform other_text "t9" target "compute" "compute-quick" context 65
      "r1" 198 cancelled_polls free (store_after (outcome cancelled_polls))
      (result_of (outcome cancelled_polls)) refl refl

run_remote_benchmark-IsAttributed_example :
    IsAttributed platform "t9" target "compute" "compute-quick"
      (store_after (outcome polls))
      (fields_of (outcome polls))
    × IsFor "t9" "r1" target.id
        ("benchmark-" ++ₛ "compute")
        (task_payload platform "compute" "compute-quick" 198)
        (store_after (outcome polls))
unfolding run_remote_benchmark select_one new_context step finish_agent_task row_count
    claim_agent_task update
run_remote_benchmark-IsAttributed_example =
    run_remote_benchmark-IsAttributed platform other_text "t9" target "compute" "compute-quick"
      context 65 "r1" 198 polls free (store_after (outcome polls)) (fields_of (outcome polls)) refl

run_remote_benchmark-ends_example : is_some (outcome cancelled_polls) ≡ true
run_remote_benchmark-ends_example =
    run_remote_benchmark-ends platform other_text "t9" target "compute" "compute-quick" context 65
      "r1" 198 cancelled_polls free refl

abbrev turns : List Turn
turns =
    (record { before = []; monotonic = 1; cancelled = false })
    ∷ (record {
      before = (80, finishes "t2" "a2" completed (some envelope) none) ∷ [];
      monotonic = 2_000_000;
      cancelled = false;
    })
    ∷ []

wait_task-ends_example :
    is_some (wait_task platform turns "t2" 0 1 (some context) controller) ≡ true
wait_task-ends_example = wait_task-ends platform "t2" 0 1 (some context) turns controller refl

abbrev waited : Database
waited = elim (wait_task platform turns "t2" 0 1 none controller) [
  | none ↦ controller
  | some p ↦ p.0
]

abbrev delivered : Task
delivered = record running_task {
  status = completed;
  result = some envelope;
  finished_at = some 80;
}

wait_task-IsDelivered_example : IsDelivered "t2" waited (ok delivered)
unfolding wait_task select_one str_eq step finish_agent_task row_count update
wait_task-IsDelivered_example =
    wait_task-IsDelivered platform "t2" 0 1 none turns controller waited (ok delivered) refl
