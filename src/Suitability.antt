-- ===== src/Suitability.antt =====
-- cloudmark/suitability.py: the rating of targets by their evidence.
pub mod Rules
pub mod Gates
pub mod Requirements
pub mod Evidence
pub mod Runs
pub mod Candidates
pub mod Services
pub mod Extraction
pub mod Verdict
pub mod Metrics
pub mod Statistics
pub mod Contracts
pub mod Boundaries
pub mod StorageContract
pub mod Cohorts
pub mod Collecting
pub mod MetricCohorts
pub mod Observations
pub mod Evaluation
pub mod Export
pub mod Best
pub mod Fit
pub mod Levels
pub mod Percentages
pub mod Distinct
pub mod Builders
pub mod Provenance
pub mod Counting
pub mod Sampling
