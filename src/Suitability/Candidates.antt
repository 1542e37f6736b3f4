-- ===== src/Suitability/Candidates.antt =====
-- cloudmark/suitability.py: the calls of `_put` that `_extract_run_evidence` makes for the suites on
-- one host and for the network suite, in their order.
use cloud_mark.Prelude.{
  ℕ, Bool, true, false, Option, none, some, List, [], ◌∷◌, ◌++◌, String, str_eq, if◌then◌else◌,
  Float, float_zero, float_one, float_max, float_min,
}
use cloud_mark.Python.{
  Value, Items, str, list, nil, cons, get, get_or, iterate, for_each, first_named, or_else,
  value_eq, Result, ok, ◌>>=◌, Platform, text_of, codes, contains,
}
use cloud_mark.Store.Schema.{Run}
use cloud_mark.Suitability.Evidence.{Item, nested, number, run_item}

-- result.get(key) or [], as the elements that a loop goes through.
abbrev pub items_of : Value → String → Result Items
items_of result key = do found ← get result key; iterate (or_else found (list nil))

-- The numbers that the elements hold under a path.
unfoldable pub numbers_at : List String → Items → List Float
unfolding nested number
numbers_at path nil = []
numbers_at path (cons v vs) =
    let rest = numbers_at path vs in
    elim (number (nested v path)) [ none ↦ rest | some x ↦ x ∷ rest ]

-- max(values) and min(values), of the first value and the rest.
abbrev pub maximum_from : Float → List Float → Float
maximum_from x [] = x
maximum_from x (y ∷ ys) = maximum_from (float_max x y) ys

abbrev pub minimum_from : Float → List Float → Float
minimum_from x [] = x
minimum_from x (y ∷ ys) = minimum_from (float_min x y) ys

-- peaks[direction] = max(peaks.get(direction, 0), rate)
unfoldable pub raise_peak : String → Float → List (String × Float) → List (String × Float)
raise_peak direction rate [] = (direction, float_max float_zero rate) ∷ []
raise_peak direction rate ((d, peak) ∷ rest) =
    if str_eq d direction
    then (d, float_max peak rate) ∷ rest
    else (d, peak) ∷ raise_peak direction rate rest

abbrev note_peak : String → Option Float → List (String × Float) → List (String × Float)
note_peak direction none peaks = peaks
note_peak direction (some rate) peaks =
    if str_eq direction "" then peaks else raise_peak direction rate peaks

abbrev peak_values : List (String × Float) → List Float
peak_values [] = []
peak_values ((d, x) ∷ rest) = x ∷ peak_values rest

abbrev name_is : String → Value → Bool
name_is name v = value_eq v (str name)

module _ (py : Platform) (now : ℕ) (run : Run) where
  -- The call of `_put` for a number, if there is one.
  abbrev pub candidate :
      (source key : String) → Option Float → (unit : String) → List (String × Item)
  candidate source key none unit = []
  candidate source key (some x) unit = (key, run_item now run source x unit) ∷ []

  abbrev candidate_if :
      Bool → (source key : String) → Option Float → (unit : String) → List (String × Item)
  candidate_if false source key x unit = []
  candidate_if true source key x unit = candidate source key x unit

  abbrev maximum_candidate : (key : String) → List Float → (unit : String) → List (String × Item)
  maximum_candidate key [] unit = []
  maximum_candidate key (x ∷ xs) unit = candidate "network" key (some (maximum_from x xs)) unit

  compute_job_named : Value → Option Float → Result (List (String × Item))
  unfolding get value_eq run_item
  compute_job_named job none = ok []
  compute_job_named job (some rate) = do
    name ← get job "name"
    ok (
        candidate_if (name_is "integer-single" name) "compute" "compute.single_eps" (some rate)
          "events/s"
        ++ candidate_if (name_is "integer-sustained" name) "compute" "compute.sustained_eps"
            (some rate) "events/s")

  unfoldable pub compute_candidates : Value → Result (List (String × Item))
  unfolding get or_else iterate for_each compute_job_named nested number run_item
  compute_candidates result = do
    jobs ← items_of result "compute_jobs"
    found ←
        for_each
          (λ job.
            compute_job_named job (number (nested job ("metrics" ∷ "events_per_second" ∷ []))))
          jobs
    ok (
        found
        ++ candidate "compute" "compute.scaling_efficiency_pct"
            (number (nested result ("scaling" ∷ "efficiency_percent" ∷ []))) "%")

  unfoldable pub memory_candidates : Value → Result (List (String × Item))
  unfolding get or_else iterate first_named nested number run_item
  memory_candidates result = do
    jobs ← items_of result "memory_jobs"
    triad ← first_named "triad-all-cores" jobs
    ok (
        candidate "memory" "memory.triad_bps"
          (number (nested triad ("metrics" ∷ "bandwidth_bytes_per_second" ∷ []))) "B/s")

  storage_job : Value → Result (List (String × Item))
  unfolding get_or text_of contains nested number run_item
  storage_job job = do
    named ← get_or job "name" (str "")
    let name = text_of py named
    ok (
        candidate_if (contains (codes name) (codes "sequential-read")) "storage"
          "storage.sequential_read_bps"
          (number (nested job ("read" ∷ "bandwidth_bytes_per_second" ∷ []))) "B/s"
        ++ candidate_if (contains (codes name) (codes "sequential-write")) "storage"
            "storage.sequential_write_bps"
            (number (nested job ("write" ∷ "bandwidth_bytes_per_second" ∷ []))) "B/s"
        ++ candidate_if
            (if str_eq name "random-read-qd1" then true else str_eq name "database-read-qd1")
            "storage" "storage.random_read_qd1_iops" (number (nested job ("read" ∷ "iops" ∷ [])))
            "IOPS"
        ++ candidate_if (str_eq name "database-sync") "storage" "storage.sync_write_iops"
            (number (nested job ("write" ∷ "iops" ∷ []))) "IOPS")

  filesystem_operation : Value → Result (List (String × Item))
  unfolding get_or text_of nested number run_item
  filesystem_operation operation = do
    named ← get_or operation "name" (str "")
    let name = text_of py named
    let rate = number (nested operation ("operations_per_second" ∷ []))
    ok (
        candidate_if (str_eq name "small-file-create") "storage" "storage.small_file_create_ops"
          rate "ops/s"
        ++ candidate_if (str_eq name "small-file-stat") "storage" "storage.small_file_stat_ops" rate
            "ops/s"
        ++ candidate_if (str_eq name "small-file-read-verify") "storage"
            "storage.small_file_read_verify_p99_ms"
            (number (nested operation ("latency_ms" ∷ "p99" ∷ []))) "ms"
        ++ candidate_if (str_eq name "durable-create-fsync") "storage"
            "storage.durable_create_fsync_ops" rate "ops/s")

  unfoldable pub storage_candidates : Value → Result (List (String × Item))
  unfolding get or_else iterate for_each storage_job filesystem_operation run_item
  storage_candidates result = do
    jobs ← items_of result "jobs"
    of_jobs ← for_each storage_job jobs
    operations ← items_of result "filesystem_operations"
    of_operations ← for_each filesystem_operation operations
    ok (
        of_jobs
        ++ of_operations
        ++ candidate "storage" "storage.cleanup_verified" (some float_one) "boolean")

  direction_peaks : List (String × Float) → Items → Result (List (String × Float))
  unfolding get_or text_of nested number raise_peak
  direction_peaks peaks nil = ok peaks
  direction_peaks peaks (cons measurement rest) = do
    direction ← get_or measurement "direction" (str "")
    direction_peaks
        (note_peak (text_of py direction)
          (number (nested measurement ("metrics" ∷ "received_bits_per_second" ∷ []))) peaks)
        rest

  abbrev floor_of : List (String × Float) → List (String × Item)
  floor_of ((d, x) ∷ (e, y) ∷ rest) =
      candidate "network" "network.directional_floor_bps"
        (some (minimum_from (float_min x y) (peak_values rest))) "bit/s"
  floor_of _ = []

  unfoldable pub network_candidates : Value → Result (List (String × Item))
  unfolding get or_else iterate direction_peaks numbers_at run_item
  network_candidates result = do
    measurements ← items_of result "measurements"
    peaks ← direction_peaks [] measurements
    latency ← items_of result "latency_measurements"
    udp ← items_of result "udp_measurements"
    ok (
        floor_of peaks
        ++ maximum_candidate "network.idle_latency_ms"
            (numbers_at ("metrics" ∷ "average_ms" ∷ []) latency) "ms"
        ++ maximum_candidate "network.idle_loss_pct"
            (numbers_at ("metrics" ∷ "loss_percent" ∷ []) latency) "%"
        ++ maximum_candidate "network.udp_loss_pct"
            (numbers_at ("metrics" ∷ "lost_percent" ∷ []) udp) "%"
        ++ maximum_candidate "network.udp_jitter_ms" (numbers_at ("metrics" ∷ "jitter_ms" ∷ []) udp)
            "ms")
