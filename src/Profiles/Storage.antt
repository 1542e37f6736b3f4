-- ===== src/Profiles/Storage.antt =====
-- cloudmark/profiles.py: STORAGE_PROFILES, as the dictionary that it is.
use cloud_mark.Prelude.{ℕ, List, [], ◌∷◌, String, pos}
use cloud_mark.Python.{Value, Fields, int, str, list, dict, nil, cons, end, field}

abbrev fio_job : (name rw bs : String) → (iodepth runtime : ℕ) → Value
fio_job name rw bs iodepth runtime = dict (
    field "name" (str name) (
      field "rw" (str rw) (
        field "bs" (str bs)
          (field "iodepth" (int (pos iodepth)) (field "runtime" (int (pos runtime)) end)))))

abbrev mixed_job : (name rw bs : String) → (iodepth runtime : ℕ) → Value
mixed_job name rw bs iodepth runtime = dict (
    field "name" (str name) (
      field "rw" (str rw) (
        field "rwmixread" (int (pos 70)) (
          field "bs" (str bs)
            (field "iodepth" (int (pos iodepth)) (field "runtime" (int (pos runtime)) end))))))

abbrev pub disk_quick : Fields
disk_quick = field "label" (str "Disk Quick") (
    field "description" (str "A short, safe assessment using a 512 MiB temporary file.") (
      field "estimated_minutes" (int (pos 4)) (
        field "profile_version" (str "1.1") (
          field "methodology_version" (str "storage-v1") (
            field "file_size_mib" (int (pos 512)) (
              field "jobs"
                (list (
                  cons (fio_job "sequential-read" "read" "1m" 8 15) (
                    cons (fio_job "sequential-write" "write" "1m" 8 15) (
                      cons (fio_job "random-read-qd1" "randread" "4k" 1 20)
                        (cons (mixed_job "mixed-70-30" "randrw" "4k" 16 30) nil)))))
                end))))))

abbrev pub disk_standard : Fields
disk_standard = field "label" (str "Disk Standard") (
    field "description"
      (str "Database, web, and throughput assessment using a 4 GiB temporary file.")
      (field "estimated_minutes" (int (pos 25)) (
        field "profile_version" (str "1.1") (
          field "methodology_version" (str "storage-v1") (
            field "file_size_mib" (int (pos 4096)) (
              field "jobs"
                (list (
                  cons (fio_job "sequential-read" "read" "1m" 8 60) (
                    cons (fio_job "sequential-write" "write" "1m" 8 60) (
                      cons (fio_job "random-read-qd1" "randread" "4k" 1 60) (
                        cons (fio_job "random-read-qd32" "randread" "4k" 32 90) (
                          cons (fio_job "random-write-qd1" "randwrite" "4k" 1 60) (
                            cons (mixed_job "mixed-70-30" "randrw" "4k" 32 300) (
                              cons
                                (dict (
                                  field "name" (str "database-sync") (
                                    field "rw" (str "randwrite") (
                                      field "bs" (str "8k") (
                                        field "iodepth" (int (pos 1)) (
                                          field "runtime" (int (pos 120))
                                            (field "fsync" (int (pos 1)) end)))))))
                                nil))))))))
                end))))))

abbrev pub disk_database : Fields
disk_database = field "label" (str "Disk Database") (
    field "description"
      (str
        "Latency and durability-sensitive 8 KiB database access patterns using a 2 GiB temporary file.")
      (field "estimated_minutes" (int (pos 14)) (
        field "profile_version" (str "1.0") (
          field "methodology_version" (str "storage-v1") (
            field "file_size_mib" (int (pos 2048)) (
              field "jobs"
                (list (
                  cons (fio_job "database-read-qd1" "randread" "8k" 1 60) (
                    cons (fio_job "database-write-qd1" "randwrite" "8k" 1 60) (
                      cons (fio_job "database-read-qd16" "randread" "8k" 16 90) (
                        cons (mixed_job "database-mixed-70-30" "randrw" "8k" 8 180) (
                          cons
                            (dict (
                              field "name" (str "database-sync") (
                                field "rw" (str "randwrite") (
                                  field "bs" (str "8k") (
                                    field "iodepth" (int (pos 1)) (
                                      field "runtime" (int (pos 120))
                                        (field "fsync" (int (pos 1)) end)))))))
                            nil))))))
                end))))))

abbrev pub disk_throughput : Fields
disk_throughput = field "label" (str "Disk Throughput") (
    field "description"
      (str
        "Large-block read/write scaling for backup, media, and analytics using a 4 GiB temporary file.")
      (field "estimated_minutes" (int (pos 12)) (
        field "profile_version" (str "1.0") (
          field "methodology_version" (str "storage-v1") (
            field "file_size_mib" (int (pos 4096)) (
              field "jobs"
                (list (
                  cons (fio_job "sequential-read-qd1" "read" "1m" 1 60) (
                    cons (fio_job "sequential-read-qd16" "read" "1m" 16 90) (
                      cons (fio_job "sequential-write-qd1" "write" "1m" 1 60) (
                        cons (fio_job "sequential-write-qd16" "write" "1m" 16 90)
                          (cons (mixed_job "streaming-mixed" "rw" "128k" 8 180) nil))))))
                end))))))

abbrev pub disk_sustained : Fields
disk_sustained = field "label" (str "Disk Sustained") (
    field "description"
      (str
        "Long steady-state mixed I/O for burst-credit and throttling detection using an 8 GiB temporary file.")
      (field "estimated_minutes" (int (pos 25)) (
        field "profile_version" (str "1.0") (
          field "methodology_version" (str "storage-v1") (
            field "file_size_mib" (int (pos 8192)) (
              field "jobs"
                (list (
                  cons
                    (dict (
                      field "name" (str "sustained-random-read") (
                        field "rw" (str "randread") (
                          field "bs" (str "4k") (
                            field "iodepth" (int (pos 32)) (
                              field "runtime" (int (pos 300))
                                (field "ramp_time" (int (pos 15)) end)))))))
                    (cons
                      (dict (
                        field "name" (str "sustained-mixed-70-30") (
                          field "rw" (str "randrw") (
                            field "rwmixread" (int (pos 70)) (
                              field "bs" (str "4k") (
                                field "iodepth" (int (pos 32)) (
                                  field "runtime" (int (pos 600))
                                    (field "ramp_time" (int (pos 20)) end))))))))
                      (cons
                        (dict (
                          field "name" (str "sustained-sequential-write") (
                            field "rw" (str "write") (
                              field "bs" (str "1m") (
                                field "iodepth" (int (pos 8)) (
                                  field "runtime" (int (pos 300))
                                    (field "ramp_time" (int (pos 10)) end)))))))
                        nil))))
                end))))))

abbrev pub disk_filesystem : Fields
disk_filesystem = field "label" (str "Filesystem Metadata & Integrity") (
    field "description"
      (str
        "Bounded small-file create/stat/read-verify/rename/delete plus per-file fsync evidence in a generated filesystem workspace.")
      (field "estimated_minutes" (int (pos 6)) (
        field "profile_version" (str "1.0") (
          field "methodology_version" (str "storage-filesystem-v1") (
            field "executor" (str "native-filesystem") (
              field "file_size_mib" (int (pos 32)) (
                field "file_count" (int (pos 2048)) (
                  field "file_bytes" (int (pos 4096)) (
                    field "directory_count" (int (pos 32)) (
                      field "durable_file_count" (int (pos 128)) (
                        field "jobs"
                          (list (
                            cons
                              (dict (
                                field "name" (str "small-file-create")
                                  (field "operation" (str "create") end)))
                              (cons
                                (dict (
                                  field "name" (str "small-file-stat")
                                    (field "operation" (str "stat") end)))
                                (cons
                                  (dict (
                                    field "name" (str "small-file-read-verify")
                                      (field "operation" (str "read-verify") end)))
                                  (cons
                                    (dict (
                                      field "name" (str "small-file-rename")
                                        (field "operation" (str "rename") end)))
                                    (cons
                                      (dict (
                                        field "name" (str "small-file-delete")
                                          (field "operation" (str "delete") end)))
                                      (cons
                                        (dict (
                                          field "name" (str "durable-create-fsync")
                                            (field "operation" (str "durable-create") end)))
                                        nil)))))))
                          end)))))))))))

abbrev pub storage_tables : List (String × Fields)
storage_tables =
    ("disk-quick", disk_quick)
    ∷ ("disk-standard", disk_standard)
    ∷ ("disk-database", disk_database)
    ∷ ("disk-throughput", disk_throughput)
    ∷ ("disk-sustained", disk_sustained)
    ∷ ("disk-filesystem", disk_filesystem)
    ∷ []
