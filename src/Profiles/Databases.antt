-- ===== src/Profiles/Databases.antt =====
-- cloudmark/profiles.py: DATABASE_PROFILES, as the dictionary that it is.
use cloud_mark.Prelude.{ℕ, List, [], ◌∷◌, String, pos}
use cloud_mark.Python.{Value, Fields, int, str, list, dict, nil, cons, end, field}
use cloud_mark.Profiles.Postgres.{
  postgres_peer_quick, postgres_peer_standard, postgres_peer_recovery, postgres_peer_checkpoint,
}

abbrev redis_job :
    (name : String)
    → (operation : String) → (value_bytes : ℕ) → (clients : ℕ) → (pipeline : ℕ) → (requests : ℕ)
    → Value
redis_job name operation value_bytes clients pipeline requests = dict (
    field "name" (str name) (
      field "operation" (str operation) (
        field "value_bytes" (int (pos value_bytes)) (
          field "clients" (int (pos clients))
            (field "pipeline" (int (pos pipeline)) (field "requests" (int (pos requests)) end))))))

abbrev sysbench_job :
    (name : String) → (workload : String) → (threads : ℕ) → (duration : ℕ) → (warmup : ℕ) → Value
sysbench_job name workload threads duration warmup = dict (
    field "name" (str name) (
      field "workload" (str workload) (
        field "threads" (int (pos threads))
          (field "duration" (int (pos duration)) (field "warmup" (int (pos warmup)) end)))))

abbrev pub redis_peer_quick : Fields
redis_peer_quick = field "label" (str "Redis Peer Quick") (
    field "description"
      (str
        "Authenticated Redis GET/SET baseline with fixed value, concurrency, pipeline, persistence, and cleanup evidence.")
      (field "estimated_minutes" (int (pos 4)) (
        field "requires_agents" (int (pos 2)) (
          field "engine" (str "redis") (
            field "port" (int (pos 56379)) (
              field "profile_version" (str "1.0") (
                field "methodology_version" (str "database-redis-v1") (
                  field "jobs"
                    (list (
                      cons (redis_job "set-64b-c1-p1" "set" 64 1 1 10000) (
                        cons (redis_job "get-64b-c1-p1" "get" 64 1 1 10000) (
                          cons (redis_job "set-1k-c16-p1" "set" 1024 16 1 20000)
                            (cons (redis_job "get-1k-c16-p16" "get" 1024 16 16 20000) nil)))))
                    end))))))))

abbrev pub redis_peer_standard : Fields
redis_peer_standard = field "label" (str "Redis Peer Standard") (
    field "description"
      (str
        "Authenticated Redis GET/SET concurrency, value-size, pipeline, AOF persistence, latency, Generator CPU, and cleanup evidence.")
      (field "estimated_minutes" (int (pos 8)) (
        field "requires_agents" (int (pos 2)) (
          field "engine" (str "redis") (
            field "port" (int (pos 56379)) (
              field "profile_version" (str "1.0") (
                field "methodology_version" (str "database-redis-v1") (
                  field "jobs"
                    (list (
                      cons (redis_job "set-64b-c1-p1" "set" 64 1 1 20000) (
                        cons (redis_job "get-64b-c1-p1" "get" 64 1 1 20000) (
                          cons (redis_job "set-64b-c16-p1" "set" 64 16 1 50000) (
                            cons (redis_job "get-64b-c16-p16" "get" 64 16 16 50000) (
                              cons (redis_job "set-1k-c16-p1" "set" 1024 16 1 50000) (
                                cons (redis_job "get-1k-c16-p16" "get" 1024 16 16 50000) (
                                  cons (redis_job "set-1k-c64-p16" "set" 1024 64 16 50000) (
                                    cons (redis_job "get-1k-c64-p16" "get" 1024 64 16 50000)
                                      nil)))))))))
                    end))))))))

abbrev pub mysql_peer_quick : Fields
mysql_peer_quick = field "label" (str "MySQL/MariaDB Peer Quick") (
    field "description"
      (str
        "Short authenticated Sysbench OLTP read-only and durable read/write baseline against an isolated InnoDB dataset.")
      (field "estimated_minutes" (int (pos 6)) (
        field "requires_agents" (int (pos 2)) (
          field "engine" (str "mysql") (
            field "port" (int (pos 57306)) (
              field "tables" (int (pos 4)) (
                field "table_size" (int (pos 10000)) (
                  field "estimated_dataset_bytes" (int (pos 134217728)) (
                    field "profile_version" (str "1.0") (
                      field "methodology_version" (str "database-mysql-v1") (
                        field "jobs"
                          (list (
                            cons (sysbench_job "read-only-c1" "oltp_read_only" 1 15 3)
                              (cons (sysbench_job "read-write-c4" "oltp_read_write" 4 30 5) nil)))
                          end)))))))))))

abbrev pub mysql_peer_standard : Fields
mysql_peer_standard = field "label" (str "MySQL/MariaDB Peer Standard") (
    field "description"
      (str
        "Authenticated InnoDB point-select, read-only, write-only, and durable read/write concurrency with P99 latency and Generator CPU validity.")
      (field "estimated_minutes" (int (pos 14)) (
        field "requires_agents" (int (pos 2)) (
          field "engine" (str "mysql") (
            field "port" (int (pos 57306)) (
              field "tables" (int (pos 8)) (
                field "table_size" (int (pos 50000)) (
                  field "estimated_dataset_bytes" (int (pos 536870912)) (
                    field "profile_version" (str "1.0") (
                      field "methodology_version" (str "database-mysql-v1") (
                        field "jobs"
                          (list (
                            cons (sysbench_job "point-select-c1" "oltp_point_select" 1 30 5) (
                              cons (sysbench_job "read-only-c4" "oltp_read_only" 4 45 5) (
                                cons (sysbench_job "read-only-c16" "oltp_read_only" 16 60 5) (
                                  cons (sysbench_job "write-only-c4" "oltp_write_only" 4 45 5) (
                                    cons (sysbench_job "read-write-c1" "oltp_read_write" 1 30 5) (
                                      cons (sysbench_job "read-write-c4" "oltp_read_write" 4 45 5) (
                                        cons
                                          (sysbench_job "read-write-c16" "oltp_read_write" 16 60 5)
                                          nil))))))))
                          end)))))))))))

abbrev pub database_profiles : List (String × Fields)
database_profiles =
    ("postgres-peer-quick", postgres_peer_quick)
    ∷ ("postgres-peer-standard", postgres_peer_standard)
    ∷ ("postgres-peer-recovery", postgres_peer_recovery)
    ∷ ("postgres-peer-checkpoint", postgres_peer_checkpoint)
    ∷ ("redis-peer-quick", redis_peer_quick)
    ∷ ("redis-peer-standard", redis_peer_standard)
    ∷ ("mysql-peer-quick", mysql_peer_quick)
    ∷ ("mysql-peer-standard", mysql_peer_standard)
    ∷ []
