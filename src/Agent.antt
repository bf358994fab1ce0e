-- ===== src/Agent.antt =====
-- mesh/agent.
pub mod Preemption
pub mod Client
pub mod Runner
pub mod Daemon
pub mod Shell
