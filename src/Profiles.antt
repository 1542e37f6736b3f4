-- ===== src/Profiles.antt =====
-- cloudmark/profiles.py: the profiles that an Agent runs on its own, as far as the dispatch reads
-- them. A job without a time has zero there.
pub mod Network
pub mod Storage
pub mod Postgres
pub mod Databases
pub mod Web
use cloud_mark.Prelude.{ℕ, Option, none, some, List, [], ◌∷◌, String}

pub record Job : Type 0 where
  pub name : String
  pub runtime : ℕ
  pub warmup : ℕ
  pub ramp_time : ℕ

pub record Profile : Type 0 where
  pub name : String
  pub estimated_minutes : ℕ
  pub profile_version : String
  pub methodology_version : String
  pub executor : Option String
  pub jobs : List Job

abbrev timed : String → (runtime warmup ramp_time : ℕ) → Job
timed name runtime warmup ramp_time = record {
  name = name;
  runtime = runtime;
  warmup = warmup;
  ramp_time = ramp_time;
}

abbrev pub compute_profiles : List Profile
compute_profiles =
    (record {
      name = "compute-quick";
      estimated_minutes = 3;
      profile_version = "1.0";
      methodology_version = "compute-v1";
      executor = none;
      jobs =
          timed "integer-single" 15 3 0
          ∷ timed "integer-all-cores" 20 3 0
          ∷ timed "integer-sustained" 60 5 0
          ∷ [];
    })
    ∷ (record {
      name = "compute-standard";
      estimated_minutes = 9;
      profile_version = "1.0";
      methodology_version = "compute-v1";
      executor = none;
      jobs =
          timed "integer-single" 30 5 0
          ∷ timed "integer-half-cores" 45 5 0
          ∷ timed "integer-all-cores" 60 10 0
          ∷ timed "integer-sustained" 300 15 0
          ∷ [];
    })
    ∷ []

abbrev pub memory_profiles : List Profile
memory_profiles =
    (record {
      name = "memory-quick";
      estimated_minutes = 3;
      profile_version = "1.0";
      methodology_version = "memory-v1";
      executor = none;
      jobs =
          timed "read-single" 15 0 0
          ∷ timed "copy-single" 15 0 0
          ∷ timed "read-all-cores" 20 0 0
          ∷ timed "copy-all-cores" 20 0 0
          ∷ timed "triad-all-cores" 20 0 0
          ∷ [];
    })
    ∷ (record {
      name = "memory-standard";
      estimated_minutes = 8;
      profile_version = "1.0";
      methodology_version = "memory-v1";
      executor = none;
      jobs =
          timed "read-single" 30 0 0
          ∷ timed "write-single" 30 0 0
          ∷ timed "copy-single" 30 0 0
          ∷ timed "triad-single" 30 0 0
          ∷ timed "read-all-cores" 45 0 0
          ∷ timed "write-all-cores" 45 0 0
          ∷ timed "copy-all-cores" 45 0 0
          ∷ timed "triad-all-cores" 45 0 0
          ∷ [];
    })
    ∷ []

abbrev pub storage_profiles : List Profile
storage_profiles =
    (record {
      name = "disk-quick";
      estimated_minutes = 4;
      profile_version = "1.1";
      methodology_version = "storage-v1";
      executor = none;
      jobs =
          timed "sequential-read" 15 0 0
          ∷ timed "sequential-write" 15 0 0
          ∷ timed "random-read-qd1" 20 0 0
          ∷ timed "mixed-70-30" 30 0 0
          ∷ [];
    })
    ∷ (record {
      name = "disk-standard";
      estimated_minutes = 25;
      profile_version = "1.1";
      methodology_version = "storage-v1";
      executor = none;
      jobs =
          timed "sequential-read" 60 0 0
          ∷ timed "sequential-write" 60 0 0
          ∷ timed "random-read-qd1" 60 0 0
          ∷ timed "random-read-qd32" 90 0 0
          ∷ timed "random-write-qd1" 60 0 0
          ∷ timed "mixed-70-30" 300 0 0
          ∷ timed "database-sync" 120 0 0
          ∷ [];
    })
    ∷ (record {
      name = "disk-database";
      estimated_minutes = 14;
      profile_version = "1.0";
      methodology_version = "storage-v1";
      executor = none;
      jobs =
          timed "database-read-qd1" 60 0 0
          ∷ timed "database-write-qd1" 60 0 0
          ∷ timed "database-read-qd16" 90 0 0
          ∷ timed "database-mixed-70-30" 180 0 0
          ∷ timed "database-sync" 120 0 0
          ∷ [];
    })
    ∷ (record {
      name = "disk-throughput";
      estimated_minutes = 12;
      profile_version = "1.0";
      methodology_version = "storage-v1";
      executor = none;
      jobs =
          timed "sequential-read-qd1" 60 0 0
          ∷ timed "sequential-read-qd16" 90 0 0
          ∷ timed "sequential-write-qd1" 60 0 0
          ∷ timed "sequential-write-qd16" 90 0 0
          ∷ timed "streaming-mixed" 180 0 0
          ∷ [];
    })
    ∷ (record {
      name = "disk-sustained";
      estimated_minutes = 25;
      profile_version = "1.0";
      methodology_version = "storage-v1";
      executor = none;
      jobs =
          timed "sustained-random-read" 300 0 15
          ∷ timed "sustained-mixed-70-30" 600 0 20
          ∷ timed "sustained-sequential-write" 300 0 10
          ∷ [];
    })
    ∷ (record {
      name = "disk-filesystem";
      estimated_minutes = 6;
      profile_version = "1.0";
      methodology_version = "storage-filesystem-v1";
      executor = some "native-filesystem";
      jobs =
          timed "small-file-create" 0 0 0
          ∷ timed "small-file-stat" 0 0 0
          ∷ timed "small-file-read-verify" 0 0 0
          ∷ timed "small-file-rename" 0 0 0
          ∷ timed "small-file-delete" 0 0 0
          ∷ timed "durable-create-fsync" 0 0 0
          ∷ [];
    })
    ∷ []

abbrev pub security_profiles : List Profile
security_profiles =
    (record {
      name = "linux-security-posture";
      estimated_minutes = 1;
      profile_version = "2.0";
      methodology_version = "linux-security-posture-v2";
      executor = none;
      jobs = [];
    })
    ∷ []
