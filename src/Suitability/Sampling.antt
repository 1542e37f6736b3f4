-- ===== src/Suitability/Sampling.antt =====
-- cloudmark/suitability.py: what a comparable metric cohort stands on.
use cloud_mark.Prelude.{ℕ, ◌≤◌, Bool, true, false, List, String, str_eq, length, ◌≡◌, All, arith}
use cloud_mark.Python.{ok, Platform}
use cloud_mark.Suitability.Cohorts.{ContractKey, Target}
use cloud_mark.Suitability.Collecting.{Builder}
use cloud_mark.Suitability.Builders.{IsCounted, EachCounted}
use cloud_mark.Suitability.Provenance.{Sample}
use cloud_mark.Suitability.Contracts.{run_implementation_contract}
use cloud_mark.Suitability.Boundaries.{system_execution_contract}
use cloud_mark.Suitability.StorageContract.{storage_run_contract}
use cloud_mark.Suitability.Counting.{IsTaken}
use cloud_mark.Suitability.Observations.{peer_ids_of}
use cloud_mark.Suitability.MetricCohorts.{cohort_reasons, MetricCohort, statistics_of, sort_run_ids}

-- What a comparable cohort has of its contract, its identity and its builder.
pub record IsComparable (identity_verified : Bool) (key : ContractKey) (b : Builder) : Type 0 where
  pub identity : identity_verified ≡ true
  pub samples : 9 ≤ length b.values
  pub targets : 3 ≤ length b.target_ids
  pub windows : 3 ≤ length b.windows
  pub not_contradicted : str_eq key.topology_evidence "contradicted" ≡ false
  pub declared : str_eq key.topology_scope "undeclared" ≡ false
  pub implementation : b.implementation_verified ≡ true
  pub execution : b.system_execution_verified ≡ true
  pub storage : b.storage_contract_verified ≡ true

pub no_reasons :
    (identity_verified : Bool) (key : ContractKey) (b : Builder)
    → length (cohort_reasons identity_verified key.topology_scope key.topology_evidence b) ≡ 0
    → IsComparable identity_verified key b
unfolding cohort_reasons
no_reasons identity_verified key b h = record {
  identity = ground arith;
  samples = ground arith;
  targets = ground arith;
  windows = ground arith;
  not_contradicted = ground arith;
  declared = ground arith;
  implementation = ground arith;
  execution = ground arith;
  storage = ground arith;
}

-- The run's own evidence verifies its three contracts.
pub record IsVerified (py : Platform) (s : Sample) : Type 0 where
  pub implementation : (run_implementation_contract py s.run).1 ≡ true
  pub boundary : String
  pub execution : system_execution_contract py s.run ≡ ok (boundary, true)
  pub storage : (storage_run_contract py s.run).1 ≡ true

-- What stands behind a metric cohort that is published as comparable.
pub record IsWellSampled (py : Platform) (now : ℕ) (peers : List Target) (identity_verified : Bool)
    (c : MetricCohort) : Type 0 where
  pub builder : Builder
  pub counted : IsCounted (IsTaken py now peers) (peer_ids_of peers) builder
  pub verified : All (IsVerified py) counted.samples
  pub verified_again : All (IsVerified py) counted.repeated
  pub comparable : IsComparable identity_verified c.contract builder
  pub sample_count_lem : c.sample_count ≡ length builder.run_ids
  pub target_count_lem : c.target_count ≡ length builder.target_ids
  pub window_count_lem : c.window_count ≡ length builder.windows
  pub run_ids_lem : c.run_ids ≡ sort_run_ids builder.run_ids
  pub statistics_lem : statistics_of c.direction builder.values ≡ ok c.statistics

abbrev WellSampled : Platform → ℕ → List Target → Bool → MetricCohort → Type 0
WellSampled py now peers identity_verified c =
    c.is_comparable ≡ true → IsWellSampled py now peers identity_verified c

abbrev pub is_published : MetricCohort → Bool
is_published c = c.is_comparable

module _ (py : Platform) (now : ℕ) (peers : List Target) (identity_verified : Bool) where
  abbrev Counted : List (ContractKey × Builder) → Type 0
  Counted builders = EachCounted (IsTaken py now peers) (peer_ids_of peers) builders
