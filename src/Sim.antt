-- ===== src/Sim.antt =====
-- mesh/sim: a cluster of simulated machines with a clock of its own, and the failures sent into it.
pub mod Agent
pub mod Cluster
pub mod Tick
pub mod Chaos
pub mod Stats
