-- ===== src/Api.antt =====
-- mesh/api: the event log, the keys, and routes with their payloads.
pub mod Events
pub mod Auth
pub mod Guard
pub mod Notebook
pub mod Terminal
pub mod Pool
pub mod Context
