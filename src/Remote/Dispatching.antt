-- ===== src/Remote/Dispatching.antt =====
-- cloudmark/remote.py: `run_remote_benchmark`, with the loop that waits for the Agent's task.
use Prim.Native.String.{◌++◌ as ◌++ₛ◌}
use cloud_mark.Prelude.{
  ℕ, Bool, not, Option, none, some, List, [], ◌∷◌, String, str_eq, if◌then◌else◌,
}
use cloud_mark.Python.{
  Value, Fields, str, int, bool, field, end, Exception, Result, ok, raise, value_error,
  distributed_error, remote_error, run_cancelled, run_timed_out, Platform,
}
use cloud_mark.Prelude.{pos}
use cloud_mark.Store.Schema.{Agent, Task, Database, Status, running, completed, failed, cancelled}
use cloud_mark.Store.Tasks.{
  has_active_agent_task, create_agent_task, get_agent_task, abort_agent_task,
}
use cloud_mark.Store.Tasks.Calls.{Call, run_calls}
use cloud_mark.Runner.{JobContext, checkpoint}
use cloud_mark.Remote.{remote_methodology_version, task_heartbeat_grace_seconds, fresh}
use cloud_mark.Remote.Results.{partial_from_task, attributed_result}

-- str(exc): of an exception that the code itself raises it is the message.
abbrev pub describe : (Exception → String) → Exception → String
describe other_text (value_error m) = m
describe other_text (distributed_error m) = m
describe other_text (remote_error m partial) = m
describe other_text (run_cancelled m partial) = m
describe other_text (run_timed_out m partial) = m
describe other_text e = other_text e

-- `exc.partial_result = partial`, if it is a RunStopped.
abbrev pub with_partial : Option Value → Exception → Exception
with_partial partial (run_cancelled m old) = run_cancelled m partial
with_partial partial (run_timed_out m old) = run_timed_out m partial
with_partial partial e = e

-- a or b, of an error text.
abbrev pub text_or_default : Option String → String → String
text_or_default none default = default
text_or_default (some s) default = if str_eq s "" then default else s

abbrev pub either_time : Option ℕ → Option ℕ → Option ℕ
either_time none b = b
either_time (some a) b = some a

-- One iteration of the loop: what others do with the store before it and between its look at the task
-- and its handling of an exception, and the clocks and the cancellation token that it reads.
pub record Poll : Type 0 where
  pub before : List (ℕ × Call)
  pub meanwhile : List (ℕ × Call)
  pub monotonic : ℕ
  pub now : ℕ
  pub cancelled : Bool

module _ (py : Platform) where
  -- One look at the task, by its status: `none` to go on waiting.
  unfoldable pub look_as :
      Status → ℕ → Agent → (suite_name profile_name : String) → Task → Option (Result Fields)
  unfolding attributed_result partial_from_task fresh
  look_as completed now agent suite_name profile_name t =
      some (attributed_result py t agent suite_name profile_name)
  look_as cancelled now agent suite_name profile_name t = some (
      raise (
        run_cancelled (text_or_default t.error "Remote benchmark was cancelled.")
          (partial_from_task t)))
  look_as failed now agent suite_name profile_name t = some (
      raise
        (remote_error (text_or_default t.error "Remote benchmark failed.") (partial_from_task t)))
  look_as running now agent suite_name profile_name t =
      if fresh now (either_time t.heartbeat_at t.claimed_at) task_heartbeat_grace_seconds
      then none
      else some (
          raise (
            remote_error "Agent task heartbeat was absent for more than 45 seconds."
              (partial_from_task t)))
  look_as _ now agent suite_name profile_name t = none

  abbrev pub task_payload : (suite_name profile_name : String) → ℕ → Fields
  task_payload suite_name profile_name timeout_seconds = field "suite" (str suite_name) (
      field "profile" (str profile_name) (
        field "timeout_seconds" (int (pos timeout_seconds)) (
          field "load_confirmed" (bool (not (str_eq suite_name "security"))) (
            field "read_only" (bool (str_eq suite_name "security"))
              (field "protocol_version" (str remote_methodology_version) end)))))

  -- The body of the loop, up to its sleep.
  unfoldable pub poll_task :
      Poll
      → (task_id : String) → Agent
      → (suite_name profile_name : String) → JobContext
      → Database
      → Option (Result Fields)
  unfolding checkpoint get_agent_task look_as
  poll_task poll task_id agent suite_name profile_name context db =
      elim (checkpoint py poll.monotonic poll.cancelled context) [
        | raise e ↦ some (raise e)
        | ok _ ↦ elim (get_agent_task db task_id) [
          | none ↦ some (raise (remote_error ("Remote task " ++ₛ task_id ++ₛ " disappeared.") none))
          | some t ↦ look_as t.status poll.now agent suite_name profile_name t
        ]
      ]

module _ (py : Platform) (other_text : Exception → String) where
  -- The handler of every exception: the task is aborted, and the exception raised again.
  unfoldable pub stop_task : ℕ → String → Exception → Database → Database × Result Fields
  unfolding get_agent_task partial_from_task abort_agent_task
  stop_task now task_id e db =
      let stopped : Exception = elim (get_agent_task db task_id) [
        | none ↦ e
        | some t ↦ with_partial (partial_from_task t) e
      ] in
      (
        (abort_agent_task now task_id
            ("Controller stopped the remote task: " ++ₛ describe other_text e) db).0,
        raise stopped,
      )

  -- What becomes of an iteration's outcome; `rest` is the outcome of the iterations after it.
  unfoldable pub settle :
      Poll
      → String
      → Database
      → Option (Database × Result Fields)
      → Option (Result Fields)
      → Option (Database × Result Fields)
  unfolding run_calls stop_task
  settle poll task_id seen rest none = rest
  settle poll task_id seen rest (some (ok result)) = some (seen, ok result)
  settle poll task_id seen rest (some (raise e)) =
      some (stop_task poll.now task_id e (run_calls py.repr poll.meanwhile seen))

  -- The loop, on a schedule of its iterations: `none` if the schedule ends while it still waits.
  unfoldable pub wait_remote :
      List Poll
      → (task_id : String) → Agent
      → (suite_name profile_name : String) → JobContext
      → Database
      → Option (Database × Result Fields)
  unfolding run_calls poll_task settle
  wait_remote [] task_id agent suite_name profile_name context db = none
  wait_remote (poll ∷ polls) task_id agent suite_name profile_name context db =
      let seen = run_calls py.repr poll.before db in
      let rest = wait_remote polls task_id agent suite_name profile_name context seen in
      settle poll task_id seen rest
        (poll_task py poll task_id agent suite_name profile_name context seen)

  -- The wait, once the store has taken the task.
  unfoldable pub wait_created :
      Result Database
      → List Poll
      → (task_id : String) → Agent
      → (suite_name profile_name : String) → JobContext
      → Database
      → Option (Database × Result Fields)
  unfolding wait_remote
  wait_created (raise e) polls task_id agent suite_name profile_name context db = some (db, raise e)
  wait_created (ok created) polls task_id agent suite_name profile_name context db =
      wait_remote polls task_id agent suite_name profile_name context created

  -- `task_id` is the new random id.
  unfoldable pub run_remote_benchmark :
      (now : ℕ) (task_id run_id : String) (agent : Agent) (suite_name profile_name : String)
      (timeout_seconds : ℕ) (context : JobContext)
      → List Poll
      → Database
      → Option (Database × Result Fields)
  unfolding has_active_agent_task create_agent_task wait_created
  run_remote_benchmark now task_id run_id agent suite_name profile_name timeout_seconds context
        polls db =
      if has_active_agent_task db agent.id
      then some (
        db,
        raise (remote_error ("Agent " ++ₛ agent.name ++ₛ " already has an active task.") none),
      )
      else wait_created
          (create_agent_task now task_id run_id agent.session_id agent.id
            ("benchmark-" ++ₛ suite_name) (task_payload py suite_name profile_name timeout_seconds)
            none db)
          polls task_id agent suite_name profile_name context db
