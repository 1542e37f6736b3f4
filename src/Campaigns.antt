-- ===== src/Campaigns.antt =====
-- cloudmark/campaigns.py, the repeated network campaigns.
pub mod Contract
pub mod Attempts
pub mod Projection
pub mod Windows
pub mod Days
pub mod Progress
pub mod Dispatch
pub mod Tally
pub mod Active
pub mod Covering
