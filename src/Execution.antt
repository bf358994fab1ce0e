-- ===== src/Execution.antt =====
-- mesh/execution/executor.py.
pub mod Context
pub mod Executor
pub mod Progress
