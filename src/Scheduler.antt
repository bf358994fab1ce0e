-- ===== src/Scheduler.antt =====
-- mesh/scheduler: scoring, resource pools, placement and rebalancing.
pub mod Scoring
pub mod Pools
pub mod Rebalancing
pub mod Placement
