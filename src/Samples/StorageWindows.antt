-- ===== src/Samples/StorageWindows.antt =====
-- A worked example of a storage campaign: its contract is built from a quick run, and the next window may be
-- dispatched on the following day.
use cloud_mark.Prelude.{
  ℕ, true, false, Option, none, some, List, [], ◌∷◌, String, str_eq, ◌≡◌, refl, pos,
}
use cloud_mark.Python.{
  Value, Items, Fields, str, int, bool, dict, list, nil, cons, end, field, get_field, ok, raise,
  Result,
}
use cloud_mark.Store.Schema.{Run, Campaign, completed}
use cloud_mark.Profiles.Storage.{disk_quick}
use cloud_mark.Campaigns.Projection.{Clock}
use cloud_mark.Campaigns.Tally.{empty_tally}
use cloud_mark.Storage.Windows.{refused, storage_target_identity}
use cloud_mark.Storage.Contract.{build_storage_campaign_contract}
use cloud_mark.Storage.Projection.{StorageProjection, project_storage_campaign}
use cloud_mark.Storage.Dispatch.{MayStore, project_storage_campaign-MayStore}
use cloud_mark.Samples.{platform, run}

abbrev number : ℕ → Value
number n = int (pos n)

abbrev metrics : Value
metrics = dict (
    field "io_bytes" (number 9) (
      field "iops" (number 9) (
        field "bandwidth_bytes_per_second" (number 9) (
          field "p50_ms" (number 1) (
            field "p90_ms" (number 2) (
              field "p95_ms" (number 3)
                (field "p99_ms" (number 3) (field "p999_ms" (number 4) end))))))))

abbrev points : (direction : String) → Value
points direction = list (
    cons
      (dict (
        field "elapsed_ms" (number 1000)
          (field "value" (number 5) (field "direction" (str direction) end))))
      nil)

abbrev series : (direction : String) → Value
series direction = dict (
    field "interval_ms" (number 1000) (
      field "bandwidth" (points direction)
        (field "iops" (points direction) (field "latency" (points direction) end))))

abbrev measured : (name direction : String) → Value → Value
measured name direction workload = dict (
    field "name" (str name) (
      field "workload" workload (
        field "runtime_seconds" (number 15) (
          field "read" metrics
            (field "write" metrics (field "time_series" (series direction) end))))))

-- The workload of one of the jobs of the profile.
abbrev jobs : List (String × String)
jobs =
    ("sequential-read", "read")
    ∷ ("sequential-write", "write")
    ∷ ("random-read-qd1", "read")
    ∷ ("mixed-70-30", "write")
    ∷ []

measurements : Items → List (String × String) → Items
measurements (cons workload rest) ((name, direction) ∷ more) =
    cons (measured name direction workload) (measurements rest more)
measurements _ _ = nil

abbrev jobs_of_profile : Value → Items
jobs_of_profile (list vs) = vs
jobs_of_profile v = nil

abbrev all_measurements : Items
all_measurements = measurements (jobs_of_profile (get_field "jobs" disk_quick)) jobs

abbrev environment : Value
environment = dict (
    field "methodology_version" (str "storage-environment-v1") (
      field "evidence_status" (str "complete") (
        field "mount"
          (dict (
            field "status" (str "observed") (
              field "filesystem_type" (str "overlay")
                (field "source_class" (str "overlay-filesystem") end))))
          end)))

abbrev system : Fields
system = field "provider" (dict (field "name" (str "Acme") end)) end

abbrev storage_result : Fields
storage_result = field "suite" (str "storage") (
    field "profile" (str "disk-quick") (
      field "profile_version" (str "1.1") (
        field "methodology_version" (str "storage-v1") (
          field "tool" (dict (field "name" (str "fio") (field "version" (str "3.36") end))) (
            field "target_evidence" (dict system) (
              field "safety"
                (dict (
                  field "test_file_removed" (bool true) (field "fio_logs_removed" (bool true) end)))
                (field "preflight"
                  (dict (
                    field "profile_version" (str "1.1") (
                      field "methodology_version" (str "storage-v1") (
                        field "job_count" (number 4) (
                          field "destructive" (bool false)
                            (field "raw_device" (bool false) end))))))
                  (field "storage_environment" environment
                    (field "jobs" (list all_measurements) end)))))))))

abbrev baseline : Run
baseline = record (run "r1" completed) {
  suite = "storage";
  profile = "disk-quick";
  finished_at = some 30;
  request = field "suite" (str "storage") (field "profile" (str "disk-quick") end);
  result = some (dict storage_result);
  methodology_version = some "storage-v1";
  tool_version = some "3.36";
}

abbrev contract_of : Result Fields → Fields
contract_of (ok fs) = fs
contract_of (raise x) = end

abbrev campaign : Campaign
campaign = record {
  id = "c1";
  label = "disk";
  status = "active";
  created_at = 31;
  target_windows = 3;
  contract = contract_of (build_storage_campaign_contract platform baseline system 3);
}

abbrev clock : Clock
clock = record { today = "2026-01-03"; tomorrow = "2026-01-04T00:00:00+00:00" }

abbrev current : Option Fields
current = some (storage_target_identity platform "controller" system)

abbrev projected : Result StorageProjection → StorageProjection
projected (ok p) = p
projected (raise x) = record {
  status = "";
  target_windows = 0;
  remaining_windows = 0;
  days = [];
  attempts = 0;
  tally = empty_tally platform;
  next = record { eligible = false; reason_code = ""; earliest_at = none };
  window_number = 0;
  attempt_number = 0;
  window_day = "";
  baseline_run_id = "";
  baseline = refused "" none;
  complete = false;
}

abbrev projection : StorageProjection
projection =
    projected (project_storage_campaign platform campaign (baseline ∷ []) current true clock)

returned_projection :
    project_storage_campaign platform campaign (baseline ∷ []) current true clock ≡ ok projection
unfolding project_storage_campaign build_storage_campaign_contract storage_target_identity
    measurements str_eq get_field
returned_projection = refl

may_dispatch : projection.next.eligible ≡ true
unfolding project_storage_campaign build_storage_campaign_contract storage_target_identity
    measurements str_eq get_field
may_dispatch = refl

project_storage_campaign-MayStore_example :
    MayStore platform campaign (baseline ∷ []) current true clock projection
unfolding str_eq
project_storage_campaign-MayStore_example =
    project_storage_campaign-MayStore platform campaign (baseline ∷ []) current true clock
      projection refl returned_projection may_dispatch
