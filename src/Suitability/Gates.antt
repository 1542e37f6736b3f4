-- ===== src/Suitability/Gates.antt =====
-- cloudmark/suitability.py: SCENARIO_REQUIREMENTS, one definition for each workload.
use cloud_mark.Prelude.{[], ◌∷◌, fraction, pos}
use cloud_mark.Suitability.Rules.{at_least, at_most, equals, threshold, rule, Requirement}

unfoldable pub storage_backup_requirement : Requirement
storage_backup_requirement = record {
  rules =
      rule "storage.sequential_read_bps" "Sequential read" at_least
        (threshold (fraction (pos 52428800) 0) (fraction (pos 157286400) 0)
          (fraction (pos 524288000) 0))
        "B/s"
      ∷ rule "storage.sequential_write_bps" "Sequential write" at_least
          (threshold (fraction (pos 31457280) 0) (fraction (pos 104857600) 0)
            (fraction (pos 314572800) 0))
          "B/s"
      ∷ rule "storage.cleanup_verified" "Temporary-file cleanup" equals
          (threshold (fraction (pos 1) 0) (fraction (pos 1) 0) (fraction (pos 1) 0)) "boolean"
      ∷ [];
  blockers = [];
  limitations =
      "Snapshot, object-storage durability, restore validation, availability, and cost are not measured."
      ∷ [];
  next_actions = "Run Disk Throughput or Disk Standard on the intended storage filesystem." ∷ [];
}

unfoldable pub web_app_requirement : Requirement
web_app_requirement = record {
  rules =
      rule "inventory.logical_cores" "Logical CPU capacity" at_least
        (threshold (fraction (pos 2) 0) (fraction (pos 4) 0) (fraction (pos 8) 0)) "cores"
      ∷ rule "inventory.memory_bytes" "Memory capacity" at_least
          (threshold (fraction (pos 2147483648) 0) (fraction (pos 8589934592) 0)
            (fraction (pos 17179869184) 0))
          "B"
      ∷ rule "compute.single_eps" "Single-thread integer rate" at_least
          (threshold (fraction (pos 650) 0) (fraction (pos 1100) 0) (fraction (pos 1800) 0))
          "events/s"
      ∷ rule "web.https_api_c16_rps" "HTTPS API throughput at C16" at_least
          (threshold (fraction (pos 300) 0) (fraction (pos 1500) 0) (fraction (pos 5000) 0)) "req/s"
      ∷ rule "web.https_api_c16_p95_ms" "HTTPS API P95 at C16" at_most
          (threshold (fraction (pos 75) 0) (fraction (pos 30) 0) (fraction (pos 15) 0)) "ms"
      ∷ rule "web.https_api_c16_success_pct" "HTTPS success rate" at_least
          (threshold (fraction (pos 99) 0) (fraction (pos 999) 9) (fraction (pos 9999) 99)) "%"
      ∷ rule "network.directional_floor_bps" "Peer TCP directional floor" at_least
          (threshold (fraction (pos 100000000) 0) (fraction (pos 500000000) 0)
            (fraction (pos 2000000000) 0))
          "bit/s"
      ∷ rule "network.idle_latency_ms" "Worst peer idle latency" at_most
          (threshold (fraction (pos 50) 0) (fraction (pos 20) 0) (fraction (pos 8) 0)) "ms"
      ∷ [];
  blockers = [];
  limitations =
      "Bundled dynamic reverse-proxy, HTTP/2 negotiation, and separate fixed HTTP/2 multiplexing load are measured; database-backed applications, HTTP/3, WAF, CDN, autoscaling, and public TLS trust remain unavailable."
      ∷ [];
  next_actions =
      "Run Compute Standard, Network Standard, and Web & TLS Peer Standard on the same Target."
      ∷ [];
}

unfoldable pub dev_test_requirement : Requirement
dev_test_requirement = record {
  rules =
      rule "inventory.logical_cores" "Logical CPU capacity" at_least
        (threshold (fraction (pos 2) 0) (fraction (pos 4) 0) (fraction (pos 8) 0)) "cores"
      ∷ rule "inventory.memory_bytes" "Memory capacity" at_least
          (threshold (fraction (pos 4294967296) 0) (fraction (pos 8589934592) 0)
            (fraction (pos 17179869184) 0))
          "B"
      ∷ rule "compute.sustained_eps" "Sustained all-core integer rate" at_least
          (threshold (fraction (pos 1200) 0) (fraction (pos 2500) 0) (fraction (pos 5000) 0))
          "events/s"
      ∷ rule "storage.random_read_qd1_iops" "Low-queue random read" at_least
          (threshold (fraction (pos 750) 0) (fraction (pos 2000) 0) (fraction (pos 5000) 0)) "IOPS"
      ∷ rule "storage.sequential_write_bps" "Sequential write" at_least
          (threshold (fraction (pos 31457280) 0) (fraction (pos 104857600) 0)
            (fraction (pos 262144000) 0))
          "B/s"
      ∷ [];
  blockers = [];
  limitations =
      "Provisioning time, image lifecycle, snapshot/clone behavior, automation APIs, and cost are not measured."
      ∷ [];
  next_actions =
      "Run Compute Standard, Memory Standard, and Disk Standard on the development target." ∷ [];
}

unfoldable pub database_requirement : Requirement
database_requirement = record {
  rules =
      rule "inventory.logical_cores" "Logical CPU capacity" at_least
        (threshold (fraction (pos 2) 0) (fraction (pos 4) 0) (fraction (pos 8) 0)) "cores"
      ∷ rule "inventory.memory_bytes" "Memory capacity" at_least
          (threshold (fraction (pos 4294967296) 0) (fraction (pos 8589934592) 0)
            (fraction (pos 17179869184) 0))
          "B"
      ∷ rule "storage.sync_write_iops" "Durable 8 KiB synchronous write" at_least
          (threshold (fraction (pos 150) 0) (fraction (pos 500) 0) (fraction (pos 1500) 0)) "IOPS"
      ∷ rule "database.tpcb_c4_tps" "Durable TPC-B-like throughput at C4" at_least
          (threshold (fraction (pos 100) 0) (fraction (pos 500) 0) (fraction (pos 1500) 0)) "TPS"
      ∷ rule "database.tpcb_c4_latency_ms" "Durable TPC-B-like average latency" at_most
          (threshold (fraction (pos 40) 0) (fraction (pos 15) 0) (fraction (pos 7) 0)) "ms"
      ∷ rule "database.tpcb_c4_failed" "Failed transactions" equals
          (threshold (fraction (pos 0) 0) (fraction (pos 0) 0) (fraction (pos 0) 0)) "count"
      ∷ rule "network.idle_latency_ms" "Worst peer idle latency" at_most
          (threshold (fraction (pos 50) 0) (fraction (pos 20) 0) (fraction (pos 8) 0)) "ms"
      ∷ [];
  blockers = [];
  limitations =
      "Fixed-count PostgreSQL transaction P95/P99 is measured; replication, failover, backup/restore, MySQL/MariaDB, Redis, and managed-service behavior remain unavailable."
      ∷ [];
  next_actions =
      "Run Disk Database, Network Standard, and PostgreSQL Peer Standard on the same Target." ∷ [];
}

unfoldable pub network_requirement : Requirement
network_requirement = record {
  rules =
      rule "network.directional_floor_bps" "Peer TCP directional floor" at_least
        (threshold (fraction (pos 100000000) 0) (fraction (pos 500000000) 0)
          (fraction (pos 2000000000) 0))
        "bit/s"
      ∷ rule "network.idle_latency_ms" "Worst peer idle latency" at_most
          (threshold (fraction (pos 50) 0) (fraction (pos 20) 0) (fraction (pos 8) 0)) "ms"
      ∷ rule "network.idle_loss_pct" "Worst idle packet loss" at_most
          (threshold (fraction (pos 1) 0) (fraction (pos 1) 1) (fraction (pos 1) 9)) "%"
      ∷ rule "network.udp_loss_pct" "Worst adaptive UDP loss" at_most
          (threshold (fraction (pos 2) 0) (fraction (pos 1) 0) (fraction (pos 1) 3)) "%"
      ∷ rule "network.udp_jitter_ms" "Worst adaptive UDP jitter" at_most
          (threshold (fraction (pos 10) 0) (fraction (pos 3) 0) (fraction (pos 1) 0)) "ms"
      ∷ [];
  blockers = [];
  limitations =
      "DNS ownership, administrative path ownership, cross-zone/region topology, physical-host queue behavior, and independent repeated pairs are not fully validated."
      ∷ [];
  next_actions =
      "Run Provider Internal Network (network-v9) between equivalent provider instances." ∷ [];
}

unfoldable pub big_data_requirement : Requirement
big_data_requirement = record {
  rules =
      rule "compute.sustained_eps" "Sustained all-core integer rate" at_least
        (threshold (fraction (pos 2500) 0) (fraction (pos 5000) 0) (fraction (pos 10000) 0))
        "events/s"
      ∷ rule "memory.triad_bps" "All-core memory triad bandwidth" at_least
          (threshold (fraction (pos 10737418240) 0) (fraction (pos 26843545600) 0)
            (fraction (pos 64424509440) 0))
          "B/s"
      ∷ rule "storage.sequential_read_bps" "Sequential read" at_least
          (threshold (fraction (pos 157286400) 0) (fraction (pos 524288000) 0)
            (fraction (pos 1048576000) 0))
          "B/s"
      ∷ rule "network.directional_floor_bps" "Peer TCP directional floor" at_least
          (threshold (fraction (pos 500000000) 0) (fraction (pos 2000000000) 0)
            (fraction (pos 10000000000) 0))
          "bit/s"
      ∷ [];
  blockers =
      "A distributed processing, data-lake, shuffle, and ETL methodology is not implemented." ∷ [];
  limitations = [];
  next_actions = "Complete the distributed analytics executor before assigning suitability." ∷ [];
}

unfoldable pub ai_ml_requirement : Requirement
ai_ml_requirement = record {
  rules = [];
  blockers =
      "GPU transfer, compute, verified framework, training, and inference evidence is unavailable; read-only inventory alone cannot satisfy this workload."
      ∷ [];
  limitations = [];
  next_actions = "Complete the GPU and accelerator assessment domain." ∷ [];
}

unfoldable pub containers_requirement : Requirement
containers_requirement = record {
  rules =
      rule "inventory.container_runtime" "Container runtime detected" equals
        (threshold (fraction (pos 1) 0) (fraction (pos 1) 0) (fraction (pos 1) 0)) "boolean"
      ∷ rule "inventory.logical_cores" "Logical CPU capacity" at_least
          (threshold (fraction (pos 2) 0) (fraction (pos 4) 0) (fraction (pos 8) 0)) "cores"
      ∷ rule "inventory.memory_bytes" "Memory capacity" at_least
          (threshold (fraction (pos 4294967296) 0) (fraction (pos 8589934592) 0)
            (fraction (pos 17179869184) 0))
          "B"
      ∷ [];
  blockers =
      "Image pull, cold start, overlay I/O, CNI, scheduling, pod density, and autoscaling evidence is unavailable."
      ∷ [];
  limitations = [];
  next_actions =
      "Complete the container and Kubernetes executor before assigning suitability." ∷ [];
}

unfoldable pub dr_requirement : Requirement
dr_requirement = record {
  rules = [];
  blockers =
      "Backup integrity, snapshot restore, replication, failover, RPO, and RTO drills are unavailable."
      ∷ [];
  limitations = [];
  next_actions = "Complete the reliability, backup, and disaster-recovery drill methodology." ∷ [];
}

unfoldable pub vdi_requirement : Requirement
vdi_requirement = record {
  rules = [];
  blockers =
      "GPU, display protocol, remote interaction latency, concurrency, and user-experience evidence is unavailable."
      ∷ [];
  limitations = [];
  next_actions = "Complete GPU and interactive VDI assessment profiles." ∷ [];
}

unfoldable pub media_requirement : Requirement
media_requirement = record {
  rules =
      rule "storage.sequential_read_bps" "Sequential read" at_least
        (threshold (fraction (pos 157286400) 0) (fraction (pos 524288000) 0)
          (fraction (pos 1048576000) 0))
        "B/s"
      ∷ rule "network.directional_floor_bps" "Peer TCP directional floor" at_least
          (threshold (fraction (pos 500000000) 0) (fraction (pos 2000000000) 0)
            (fraction (pos 10000000000) 0))
          "bit/s"
      ∷ [];
  blockers =
      "Codec throughput, GPU media engines, streaming, CDN, and global distribution evidence is unavailable."
      ∷ [];
  limitations = [];
  next_actions = "Complete the media codec and content-delivery executor." ∷ [];
}

unfoldable pub enterprise_requirement : Requirement
enterprise_requirement = record {
  rules = [];
  blockers =
      "IAM/RBAC, compliance, HA, reliability, observability, integration, and control-plane evidence is unavailable."
      ∷ [];
  limitations = [];
  next_actions =
      "Complete security, reliability, observability, and control-plane assessment domains." ∷ [];
}
