-- ===== src/Profiles/Postgres.antt =====
-- cloudmark/profiles.py: the PostgreSQL entries of DATABASE_PROFILES.
use cloud_mark.Prelude.{ℕ, String, true, pos}
use cloud_mark.Python.{Value, Fields, bool, int, str, list, dict, nil, cons, end, field}

abbrev pgbench_job :
    (name : String)
    → (workload : String) → (clients : ℕ) → (threads : ℕ) → (duration : ℕ) → (warmup : ℕ) → Value
pgbench_job name workload clients threads duration warmup = dict (
    field "name" (str name) (
      field "workload" (str workload) (
        field "clients" (int (pos clients)) (
          field "threads" (int (pos threads))
            (field "duration" (int (pos duration)) (field "warmup" (int (pos warmup)) end))))))

abbrev pub postgres_peer_quick : Fields
postgres_peer_quick = field "label" (str "PostgreSQL Peer Quick") (
    field "description"
      (str
        "Short two-Agent PostgreSQL baseline with read-only and durable read/write pgbench workloads.")
      (field "estimated_minutes" (int (pos 5)) (
        field "requires_agents" (int (pos 2)) (
          field "engine" (str "postgresql") (
            field "scale_factor" (int (pos 10)) (
              field "port" (int (pos 55432)) (
                field "profile_version" (str "1.0") (
                  field "methodology_version" (str "database-postgresql-v1") (
                    field "jobs"
                      (list (
                        cons (pgbench_job "select-only-c1" "select-only" 1 1 15 3) (
                          cons (pgbench_job "select-only-c4" "select-only" 4 2 20 3)
                            (cons (pgbench_job "tpcb-like-c4" "tpcb-like" 4 2 30 3) nil))))
                      end)))))))))

abbrev pub postgres_peer_standard : Fields
postgres_peer_standard = field "label" (str "PostgreSQL Peer Standard") (
    field "description"
      (str
        "Concurrency scaling, durable transactions, connection churn, fixed-count P50/P95/P99/P99.9 transaction latency, and Generator CPU validity against an isolated PostgreSQL dataset.")
      (field "estimated_minutes" (int (pos 14)) (
        field "requires_agents" (int (pos 2)) (
          field "engine" (str "postgresql") (
            field "scale_factor" (int (pos 50)) (
              field "port" (int (pos 55432)) (
                field "profile_version" (str "2.0") (
                  field "methodology_version" (str "database-postgresql-v2") (
                    field "jobs"
                      (list (
                        cons (pgbench_job "select-only-c1" "select-only" 1 1 30 5) (
                          cons (pgbench_job "select-only-c4" "select-only" 4 2 45 5) (
                            cons (pgbench_job "select-only-c16" "select-only" 16 4 60 5) (
                              cons (pgbench_job "tpcb-like-c1" "tpcb-like" 1 1 30 5) (
                                cons (pgbench_job "tpcb-like-c4" "tpcb-like" 4 2 45 5) (
                                  cons (pgbench_job "tpcb-like-c16" "tpcb-like" 16 4 60 5) (
                                    cons
                                      (dict (
                                        field "name" (str "connection-churn-c4") (
                                          field "workload" (str "select-only") (
                                            field "clients" (int (pos 4)) (
                                              field "threads" (int (pos 2)) (
                                                field "duration" (int (pos 30)) (
                                                  field "warmup" (int (pos 3)) (
                                                    field "connect_per_transaction" (bool true)
                                                      end))))))))
                                      (cons
                                        (dict (
                                          field "name" (str "tpcb-like-tail-c4") (
                                            field "workload" (str "tpcb-like") (
                                              field "clients" (int (pos 4)) (
                                                field "threads" (int (pos 2)) (
                                                  field "duration" (int (pos 0)) (
                                                    field "warmup" (int (pos 5)) (
                                                      field "transactions_per_client"
                                                        (int (pos 1000))
                                                        (field "timeout" (int (pos 120))
                                                          end)))))))))
                                        nil)))))))))
                      end)))))))))

abbrev pub postgres_peer_recovery : Fields
postgres_peer_recovery = field "label" (str "PostgreSQL Backup & Restore") (
    field "description"
      (str
        "Isolated durable workload followed by a fixed logical backup, restore into a second ephemeral database, row-count verification, and complete artifact cleanup.")
      (field "estimated_minutes" (int (pos 12)) (
        field "requires_agents" (int (pos 2)) (
          field "engine" (str "postgresql") (
            field "scale_factor" (int (pos 20)) (
              field "port" (int (pos 55432)) (
                field "profile_version" (str "1.0") (
                  field "methodology_version" (str "database-postgresql-recovery-v1") (
                    field "jobs" (list (cons (pgbench_job "tpcb-like-c4" "tpcb-like" 4 2 30 5) nil))
                      (field "recovery_drill"
                        (dict (
                          field "type" (str "logical-backup-restore")
                            (field "timeout" (int (pos 300)) end)))
                        end))))))))))

abbrev pub postgres_peer_checkpoint : Fields
postgres_peer_checkpoint = field "label" (str "PostgreSQL Checkpoint Isolation") (
    field "description"
      (str
        "Fixed durable write workload bracketed by forced checkpoints and version-aware checkpointer statistics.")
      (field "estimated_minutes" (int (pos 9)) (
        field "requires_agents" (int (pos 2)) (
          field "engine" (str "postgresql") (
            field "scale_factor" (int (pos 20)) (
              field "port" (int (pos 55432)) (
                field "profile_version" (str "1.0") (
                  field "methodology_version" (str "database-postgresql-checkpoint-v1") (
                    field "jobs" (list (cons (pgbench_job "tpcb-like-c4" "tpcb-like" 4 2 60 5) nil))
                      (field "checkpoint_drill"
                        (dict (
                          field "type" (str "forced-checkpoint-isolation")
                            (field "timeout" (int (pos 120)) end)))
                        end))))))))))
