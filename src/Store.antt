-- ===== src/Store.antt =====
-- cloudmark/database.py, the Controller's store. `Schema` holds the rows and the state; `Runs`, `Secrets`,
-- `Tasks`, `Pairing`, `Campaigns` and `Costs` hold the statements on them.
pub mod Schema
pub mod Runs
pub mod Secrets
pub mod Tasks
pub mod Pairing
pub mod Campaigns
pub mod Costs
