-- ===== src/Samples/StoreRuns.antt =====
-- Worked examples of the runs in the store.
use cloud_mark.Prelude.{
  ℕ, none, List, [], ◌∷◌, ◌++◌, String, ◌≡◌, refl, ◌||◌, select_one, Distinct, All, pos, pos_part,
  min, max, length,
}
use mathlib.Core.List.{Perm}
use cloud_mark.Python.{Value, end}
use cloud_mark.Store.Schema.{Run, Database, empty, running, queued}
use cloud_mark.Store.Runs.{get_run, request_cancel, is_cancel_requested, list_runs}
use cloud_mark.Store.Runs.Cancellation.{cancellable, request_cancel_lem}
use cloud_mark.Store.Runs.Soundness.{IsSound, run_calls-IsSound}
use cloud_mark.Store.Runs.Listing.{list_runs_lem, Descending}
use cloud_mark.Store.Tasks.Calls.{Call, creates_run, requests_cancel, run_calls}
use cloud_mark.Samples.{controller, run}

abbrev text : Value → String
text v = "1"

one_run-Distinct : Distinct (λ (r : Run). r.id) controller.runs
unfolding select_one
one_run-Distinct = (refl, tt)

request_cancel_example :
    ((request_cancel 50 "r1" controller).1 ≡ cancellable (get_run controller "r1"))
    × (is_cancel_requested (request_cancel 50 "r1" controller).0 "r1"
        ≡ (cancellable (get_run controller "r1") || is_cancel_requested controller "r1"))
request_cancel_example = request_cancel_lem 50 "r1" controller one_run-Distinct

abbrev history : List (ℕ × Call)
history =
    (10, creates_run "r1" "compute" "compute-quick" end (pos 3) none none none)
    ∷ (20, requests_cancel "r1")
    ∷ []

run_calls-IsSound_example : All IsSound (run_calls text history empty).runs
run_calls-IsSound_example = run_calls-IsSound text history

abbrev two_runs : Database
two_runs = record controller { runs = run "r1" running ∷ run "r2" queued ∷ [] }

list_runs_example :
    (left_out : List Run) × Perm (list_runs (pos 1) two_runs ++ left_out) two_runs.runs
    × Descending (list_runs (pos 1) two_runs ++ left_out)
    × (length (list_runs (pos 1) two_runs)
        ≡ min (max 1 (min (pos_part (pos 1)) 5000)) (length two_runs.runs))
list_runs_example = list_runs_lem (pos 1) two_runs
