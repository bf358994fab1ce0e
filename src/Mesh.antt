-- ===== src/Mesh.antt =====
-- mesh/meshvpn.
pub mod Coordinator
pub mod Routes
