-- ===== src/State.antt =====
-- mesh/state: what a driver stores of its jobs, tasks, nodes and checkpoints, and where.
pub mod Json
pub mod Serialize
pub mod RoundTrip
pub mod Interface
pub mod Sqlite
pub mod Redis
pub mod Contents
pub mod Rows
