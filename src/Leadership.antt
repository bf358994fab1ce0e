-- ===== src/Leadership.antt =====
-- mesh/driver/ha/election.py and the leadership of the stores in mesh/state. The clock's reading is
-- the argument `now`.
pub mod Lease
pub mod Election
pub mod Usurp
pub mod Redis
pub mod Postgres
pub mod Race
pub mod Tenure
