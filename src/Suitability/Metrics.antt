-- ===== src/Suitability/Metrics.antt =====
-- cloudmark/suitability.py: COMPARISON_METRICS, the measurements that cohorts compare.
use cloud_mark.Prelude.{List, [], ◌∷◌, String}

-- Which end of a metric is the better one.
pub data Direction : Type 0 where
  higher lower : Direction

pub record Metric : Type 0 where
  pub key : String
  pub label : String
  pub direction : Direction

abbrev metric : String → String → Direction → Metric
metric key label direction = record { key = key; label = label; direction = direction }

unfoldable pub comparison_metrics : List Metric
comparison_metrics =
    metric "compute.single_eps" "Single-thread integer rate" higher
    ∷ metric "compute.sustained_eps" "Sustained all-core integer rate" higher
    ∷ metric "compute.scaling_efficiency_pct" "Compute scaling efficiency" higher
    ∷ metric "memory.triad_bps" "All-core memory triad bandwidth" higher
    ∷ metric "storage.sequential_read_bps" "Sequential storage read" higher
    ∷ metric "storage.sequential_write_bps" "Sequential storage write" higher
    ∷ metric "storage.random_read_qd1_iops" "Low-queue random read" higher
    ∷ metric "storage.sync_write_iops" "Durable synchronous write" higher
    ∷ metric "storage.small_file_create_ops" "Small-file create rate" higher
    ∷ metric "storage.small_file_stat_ops" "Small-file stat rate" higher
    ∷ metric "storage.small_file_read_verify_p99_ms" "Small-file read and verify P99" lower
    ∷ metric "storage.durable_create_fsync_ops" "Per-file durable create rate" higher
    ∷ metric "network.directional_floor_bps" "Peer TCP directional floor" higher
    ∷ metric "network.idle_latency_ms" "Worst peer idle latency" lower
    ∷ metric "network.idle_loss_pct" "Worst idle packet loss" lower
    ∷ metric "network.udp_loss_pct" "Worst adaptive UDP loss" lower
    ∷ metric "network.udp_jitter_ms" "Worst adaptive UDP jitter" lower
    ∷ metric "database.tpcb_c4_tps" "Durable TPC-B-like throughput at C4" higher
    ∷ metric "database.tpcb_c4_latency_ms" "Durable TPC-B-like average latency" lower
    ∷ metric "database.tpcb_c4_failed" "Failed database transactions" lower
    ∷ metric "database.postgresql_forced_checkpoint_ms" "PostgreSQL forced checkpoint wall time"
        lower
    ∷ metric "database.redis_set_1k_c16_p1_rps" "Redis 1 KiB SET throughput at C16/P1" higher
    ∷ metric "database.redis_set_1k_c16_p1_p99_ms" "Redis 1 KiB SET P99 at C16/P1" lower
    ∷ metric "database.redis_get_1k_c16_p16_rps" "Redis 1 KiB GET throughput at C16/P16" higher
    ∷ metric "database.redis_get_1k_c16_p16_p99_ms" "Redis 1 KiB GET P99 at C16/P16" lower
    ∷ metric "database.mysql_read_write_t4_tps" "MySQL/MariaDB read/write throughput at T4" higher
    ∷ metric "database.mysql_read_write_t4_p99_ms" "MySQL/MariaDB read/write P99 at T4" lower
    ∷ metric "database.mysql_read_write_t4_errors" "MySQL/MariaDB read/write ignored errors at T4"
        lower
    ∷ metric "web.https_api_c16_rps" "HTTPS API throughput at C16" higher
    ∷ metric "web.https_api_c16_p95_ms" "HTTPS API P95 at C16" lower
    ∷ metric "web.https_api_c16_success_pct" "HTTPS API success rate" higher
    ∷ metric "web.http2_dynamic_c8_m16_rps" "HTTP/2 dynamic throughput at C8/M16" higher
    ∷ metric "web.http2_dynamic_c8_m16_p99_ms" "HTTP/2 dynamic P99 at C8/M16" lower
    ∷ metric "web.http2_dynamic_c8_m16_success_pct" "HTTP/2 dynamic success rate at C8/M16" higher
    ∷ []
