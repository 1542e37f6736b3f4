-- ===== src/Storage.antt =====
-- cloudmark/storage_campaigns.py: repeated storage runs of one target. `Measurements` and `Completeness` test
-- the measurements of a run against its profile, `Windows` says whether it is a window, `Contract` builds a
-- campaign's contract, and `Projection` decides on the next window.
pub mod Measurements
pub mod Completeness
pub mod Windows
pub mod Contract
pub mod Projection
pub mod Dispatch
pub mod Counting
