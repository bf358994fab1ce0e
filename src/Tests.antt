-- ===== src/Tests.antt =====
-- The theorems at concrete inputs.
pub mod Data
pub mod Health
pub mod Scheduling
pub mod Memory
pub mod Leadership
pub mod Recovery
pub mod Jobs
pub mod Cluster
pub mod Execution
pub mod State
pub mod Sim
pub mod Agent
pub mod Api
pub mod Events
pub mod Daemon
pub mod Terminal
pub mod Pool
pub mod Install
