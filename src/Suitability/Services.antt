-- ===== src/Suitability/Services.antt =====
-- cloudmark/suitability.py: the calls of `_put` that `_extract_run_evidence` makes for databases and web
-- servers.
use cloud_mark.Prelude.{
  ℕ, Option, none, some, List, [], ◌∷◌, ◌++◌, String, str_eq, if◌then◌else◌, Float, float_scale,
}
use cloud_mark.Python.{
  Value, str, get, get_or, iterate, first_named, or_else, truthy, value_eq, Result, ok, ◌>>=◌,
  Platform, text_of,
}
use cloud_mark.Store.Schema.{Run}
use cloud_mark.Campaigns.Contract.{text_or}
use cloud_mark.Suitability.Evidence.{Item, nested, number, run_item}
use cloud_mark.Suitability.Candidates.{items_of, candidate}

module _ (py : Platform) (now : ℕ) (run : Run) where
  -- One candidate for each entry of `values` that has a number.
  abbrev candidates_of :
      (source : String) → List (String × (Option Float × String)) → List (String × Item)
  candidates_of source [] = []
  candidates_of source ((key, (x, unit)) ∷ rest) =
      candidate py now run source key x unit ++ candidates_of source rest

  abbrev entries_if :
      Value → List (String × (Option Float × String)) → List (String × (Option Float × String))
  entries_if measurement entries = if truthy measurement then entries else []

  redis_values : Value → Result (List (String × (Option Float × String)))
  unfolding get or_else iterate first_named nested number truthy
  redis_values result = do
    measurements ← items_of result "redis_measurements"
    set_measurement ← first_named "set-1k-c16-p1" measurements
    get_measurement ← first_named "get-1k-c16-p16" measurements
    ok (
        entries_if set_measurement (
          (
            "database.redis_set_1k_c16_p1_rps",
            (number (nested set_measurement ("metrics" ∷ "requests_per_second" ∷ [])), "req/s"),
          )
          ∷ (
            "database.redis_set_1k_c16_p1_p99_ms",
            (number (nested set_measurement ("metrics" ∷ "latency_ms" ∷ "p99" ∷ [])), "ms"),
          )
          ∷ [])
        ++ entries_if get_measurement (
            (
              "database.redis_get_1k_c16_p16_rps",
              (number (nested get_measurement ("metrics" ∷ "requests_per_second" ∷ [])), "req/s"),
            )
            ∷ (
              "database.redis_get_1k_c16_p16_p99_ms",
              (number (nested get_measurement ("metrics" ∷ "latency_ms" ∷ "p99" ∷ [])), "ms"),
            )
            ∷ []))

  mysql_values : Value → Result (List (String × (Option Float × String)))
  unfolding get or_else iterate first_named nested number truthy
  mysql_values result = do
    measurements ← items_of result "mysql_measurements"
    measurement ← first_named "read-write-c4" measurements
    ok (
        entries_if measurement (
          (
            "database.mysql_read_write_t4_tps",
            (number (nested measurement ("metrics" ∷ "transactions_per_second" ∷ [])), "TPS"),
          )
          ∷ (
            "database.mysql_read_write_t4_p99_ms",
            (number (nested measurement ("metrics" ∷ "latency_ms" ∷ "p99" ∷ [])), "ms"),
          )
          ∷ (
            "database.mysql_read_write_t4_errors",
            (number (nested measurement ("metrics" ∷ "ignored_errors" ∷ [])), "count"),
          )
          ∷ []))

  -- The forced checkpoint's seconds, in milliseconds.
  checkpoint_values : Value → List (String × (Option Float × String))
  unfolding nested number value_eq float_scale
  checkpoint_values result =
      elim (number (nested result ("checkpoint" ∷ "forced_checkpoint_duration_seconds" ∷ []))) [
        | none ↦ []
        | some seconds ↦
            if value_eq (nested result ("checkpoint" ∷ "status" ∷ [])) (str "complete")
            then (
              "database.postgresql_forced_checkpoint_ms",
              (some (float_scale 999 seconds), "ms"),
            )
              ∷ []
            else []
      ]

  postgresql_values : Value → Result (List (String × (Option Float × String)))
  unfolding get or_else iterate first_named nested number truthy checkpoint_values
  postgresql_values result = do
    measurements ← items_of result "database_measurements"
    measurement ← first_named "tpcb-like-c4" measurements
    ok (
        entries_if measurement (
          (
            "database.tpcb_c4_tps",
            (number (nested measurement ("metrics" ∷ "transactions_per_second" ∷ [])), "TPS"),
          )
          ∷ (
            "database.tpcb_c4_latency_ms",
            (number (nested measurement ("metrics" ∷ "latency_average_ms" ∷ [])), "ms"),
          )
          ∷ (
            "database.tpcb_c4_failed",
            (number (nested measurement ("metrics" ∷ "failed_transactions" ∷ [])), "count"),
          )
          ∷ [])
        ++ checkpoint_values result)

  unfoldable pub database_candidates : Value → Result (List (String × Item))
  unfolding get or_else text_of redis_values mysql_values postgresql_values run_item
  database_candidates result = do
    named ← get result "engine"
    let engine = text_or py "postgresql" named
    values ←
        if str_eq engine "redis"
        then redis_values result
        else if str_eq engine "mysql"
        then mysql_values result
        else postgresql_values result
    ok (candidates_of "database" values)

  http2_values : Value → Result (List (String × (Option Float × String)))
  unfolding get or_else iterate first_named nested number truthy
  http2_values result = do
    measurements ← items_of result "http2_measurements"
    measurement ← first_named "h2-dynamic-c8-m16" measurements
    ok (
        entries_if measurement (
          (
            "web.http2_dynamic_c8_m16_rps",
            (number (nested measurement ("metrics" ∷ "requests_per_second" ∷ [])), "req/s"),
          )
          ∷ (
            "web.http2_dynamic_c8_m16_p99_ms",
            (
              number (
                  nested measurement
                    ("metrics" ∷ "request_latency" ∷ "latency_percentiles_ms" ∷ "p99" ∷ [])),
              "ms",
            ),
          )
          ∷ (
            "web.http2_dynamic_c8_m16_success_pct",
            (number (nested measurement ("metrics" ∷ "success_percent" ∷ [])), "%"),
          )
          ∷ []))

  https_values : Value → Result (List (String × (Option Float × String)))
  unfolding get or_else iterate first_named nested number truthy
  https_values result = do
    measurements ← items_of result "web_measurements"
    measurement ← first_named "https-api-c16" measurements
    ok (
        entries_if measurement (
          (
            "web.https_api_c16_rps",
            (number (nested measurement ("metrics" ∷ "requests_per_second" ∷ [])), "req/s"),
          )
          ∷ (
            "web.https_api_c16_p95_ms",
            (number (nested measurement ("metrics" ∷ "latency_percentiles_ms" ∷ "p95" ∷ [])), "ms"),
          )
          ∷ (
            "web.https_api_c16_success_pct",
            (number (nested measurement ("metrics" ∷ "success_percent" ∷ [])), "%"),
          )
          ∷ []))

  unfoldable pub web_candidates : Value → Result (List (String × Item))
  unfolding get_or text_of http2_values https_values run_item
  web_candidates result = do
    version ← get_or result "methodology_version" (str "")
    values ←
        if str_eq (text_of py version) "web-http2-load-v1"
        then http2_values result
        else https_values result
    ok (candidates_of "web" values)
