-- ===== src/Samples/Cohorts.antt =====
-- A worked example of the cohorts: three targets of one product with three compute runs each, on three days.
use cloud_mark.Prelude.{
  length, str_eq, true, false, some, List, [], ◌∷◌, String, ◌≡◌, refl, fraction, pos, ℕ, select,
  ◌*◌,
}
use cloud_mark.Python.{
  Value, str, int, bool, float, dict, list, cons, nil, field, end, ok, raise, Result,
}
use cloud_mark.Store.Schema.{Run, completed}
use cloud_mark.Suitability.Cohorts.{Target, CohortKey}
use cloud_mark.Suitability.Observations.{Group, cohort_group, observational}
use cloud_mark.Suitability.Sampling.{is_published}
use cloud_mark.Samples.{platform, run}

abbrev boundary : Value
boundary = dict (
    field "host_logical_cores" (int (pos 4)) (
      field "effective_logical_cores" (int (pos 4)) (
        field "affinity_respected" (bool false) (
          field "cgroup_cpu_quota_verified" (bool true)
            (field "cgroup_cpu_quota_applied" (bool false) end)))))

abbrev tool : Value
tool = dict (field "name" (str "sysbench") (field "version" (str "1.0") end))

abbrev jobs : ℕ → Value
jobs rate = list (
    cons
      (dict (
        field "name" (str "integer-single")
          (field "metrics" (dict (field "events_per_second" (int (pos rate)) end)) end)))
      nil)

abbrev compute_run : (id agent_id : String) → (day rate : ℕ) → Run
compute_run id agent_id day rate = record (run id completed) {
  suite = "compute";
  request = field "agent_id" (str agent_id) end;
  finished_at = some (day * 86400000000);
  result = some (
      dict (
        field "methodology_version" (str "compute-v1") (
          field "compute_jobs" (jobs rate) (
            field "tool" tool
              (field "preflight" (dict (field "cpu_execution_boundary" boundary end)) end)))));
}

abbrev peer : (id : String) → List Run → Target
peer id runs = record {
  id = id;
  label = "host";
  provider =
      field "name" (str "Acme")
        (field "confidence" (float (fraction (pos 1) 0)) (field "source" (str "metadata") end));
  system = end;
  runs = runs;
}

abbrev peers : List Target
peers =
    peer "a1"
      (compute_run "r1" "a1" 1 700 ∷ compute_run "r2" "a1" 2 710 ∷ compute_run "r3" "a1" 3 690 ∷ [])
    ∷ peer "a2" (
        compute_run "r4" "a2" 1 720
        ∷ compute_run "r5" "a2" 2 705
        ∷ compute_run "r6" "a2" 3 695
        ∷ [])
    ∷ peer "a3" (
        compute_run "r7" "a3" 1 715
        ∷ compute_run "r8" "a3" 2 685
        ∷ compute_run "r9" "a3" 3 700
        ∷ [])
    ∷ []

abbrev cohort_key : CohortKey
cohort_key = record {
  provider = "Acme";
  instance_type = "small";
  region = "r1";
  operating_system = "Linux";
}

abbrev grouped : Result Group → Group
grouped (ok g) = g
grouped (raise x) = record {
  index = 0;
  key = cohort_key;
  comparison_status = observational;
  rating_status = "";
  target_ids = [];
  windows = [];
  observed_suites = [];
  criteria = [];
  gaps = [];
  metric_cohorts = [];
}

abbrev now : ℕ
now = 4 * 86400000000

abbrev group : Group
group = grouped (cohort_group platform now 1 (cohort_key, peers))

-- The group has one cohort that is comparable.
one_comparable : length (select is_published group.metric_cohorts) ≡ 1
unfolding cohort_group str_eq select
one_comparable = refl
