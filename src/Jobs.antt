-- ===== src/Jobs.antt =====
-- mesh/driver/job_manager.py: jobs, their tasks and replicas, failover.
pub mod Manager
pub mod Dispatch
pub mod Outcome
pub mod Resume
pub mod Frames
pub mod Completion
pub mod Raised
pub mod Failure
pub mod Durability
pub mod Death
pub mod Stranded
pub mod Submit
pub mod Named
pub mod Waiting
pub mod Periodic
pub mod Keeps
pub mod Idempotency
