-- ===== src/Recovery.antt =====
-- mesh/recovery: checkpoints, work stealing and replication.
pub mod Checkpoints
pub mod Speculation
pub mod Replication
pub mod Stealing
pub mod Spread
