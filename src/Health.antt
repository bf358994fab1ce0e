-- ===== src/Health.antt =====
-- mesh/health/heartbeat.py: the per-node heartbeat state machine and the cluster's registry.
pub mod Tracker
pub mod Registry
pub mod Deadlines
pub mod History
pub mod Sweep
pub mod Still
pub mod PerNode
