-- ===== src/Runner.antt =====
-- cloudmark/runner.py: the context of one run, which reports progress and stops the run when it is
-- cancelled or over its time.
pub mod Progress
use Prim.Native.String.{◌++◌ as ◌++ₛ◌}
use cloud_mark.Prelude.{
  ℕ, suc, Bool, true, false, Option, none, some, List, [], ◌∷◌, ◌++◌, String, if◌then◌else◌, ◌||◌,
  ltb, ◌-◌, ◌*◌, min, max, pos, Float, min_one, div_ℕ,
}
use cloud_mark.Python.{
  Value, int, Result, ok, raise, run_cancelled, run_timed_out, Exception, Platform,
}
use cloud_mark.Store.Runs.{ProgressReport}

-- The clock is `time.monotonic` in microseconds; the time limit is in whole seconds. `reports` holds
-- what the progress callback was called with, in order.
pub record JobContext : Type 0 where
  pub run_id : String
  pub total_steps : ℕ
  pub timeout_seconds : ℕ
  pub on_progress : Bool
  pub completed_steps : ℕ
  pub started : ℕ
  pub reports : List ProgressReport

unfoldable pub new_context :
    (run_id : String) (total_steps timeout_seconds : ℕ) (on_progress : Bool) (now : ℕ) → JobContext
new_context run_id total_steps timeout_seconds on_progress now = record {
  run_id = run_id;
  total_steps = max 1 total_steps;
  timeout_seconds = max 1 timeout_seconds;
  on_progress = on_progress;
  completed_steps = 0;
  started = now;
  reports = [];
}

abbrev pub elapsed : JobContext → ℕ → ℕ
elapsed c now = now - c.started

abbrev pub is_over_time : JobContext → ℕ → Bool
is_over_time c now = ltb (c.timeout_seconds * 1_000_000) (elapsed c now)

-- What a benchmark does with its context.
pub data JobCall : Type 0 where
  reports_phase completes_step :
      (now : ℕ) (cancelled : Bool) (phase : String) (current_job : Option String)
      (partial_result : Option Value)
      → JobCall

module _ (py : Platform) where
  -- `cancelled` is the state of the cancellation token.
  unfoldable pub checkpoint : (now : ℕ) (cancelled : Bool) → JobContext → Result (Unit {0})
  checkpoint now cancelled c =
      if cancelled
      then raise (run_cancelled "Run cancelled by the operator." none)
      else if is_over_time c now
      then raise (
          run_timed_out
            ("Run exceeded the " ++ₛ py.repr (int (pos c.timeout_seconds)) ++ₛ "-second timeout.")
            none)
      else ok tt

  abbrev pub report_of : String → Option String → Option Value → JobContext → ProgressReport
  report_of phase current_job partial_result c = record {
    progress = min_one (div_ℕ c.completed_steps c.total_steps);
    phase = some phase;
    current_job = current_job;
    completed_steps = pos c.completed_steps;
    total_steps = pos c.total_steps;
    result = partial_result;
  }

  abbrev send : ProgressReport → JobContext → JobContext
  send r c = if c.on_progress then record c { reports = c.reports ++ r ∷ [] } else c

  -- The context after the call, and how the call ended.
  unfoldable pub report :
      (now : ℕ) (cancelled : Bool) (phase : String) (current_job : Option String)
      (partial_result : Option Value)
      → JobContext
      → JobContext × Result (Unit {0})
  unfolding checkpoint
  report now cancelled phase current_job partial_result c = elim (checkpoint now cancelled c) [
    | raise e ↦ (c, raise e)
    | ok _ ↦ (send (report_of phase current_job partial_result c) c, ok tt)
  ]

  unfoldable pub complete_step :
      (now : ℕ) (cancelled : Bool) (phase : String) (current_job : Option String)
      (partial_result : Option Value)
      → JobContext
      → JobContext × Result (Unit {0})
  unfolding report
  complete_step now cancelled phase current_job partial_result c =
      report now cancelled phase current_job partial_result
        (record c { completed_steps = min c.total_steps (suc c.completed_steps) })

  unfoldable pub job_step : JobCall → JobContext → JobContext × Result (Unit {0})
  unfolding report complete_step
  job_step (reports_phase now cancelled phase job partial_result) c =
      report now cancelled phase job partial_result c
  job_step (completes_step now cancelled phase job partial_result) c =
      complete_step now cancelled phase job partial_result c

  -- Calls in a row; the first exception ends the job.
  unfoldable pub run_job : List JobCall → JobContext → JobContext × Result (Unit {0})
  unfolding job_step
  run_job [] c = (c, ok tt)
  run_job (call ∷ rest) c =
      let (after, outcome) = job_step call c in
      let later = run_job rest after in elim outcome [ raise e ↦ (after, raise e) | ok _ ↦ later ]
