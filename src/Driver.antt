-- ===== src/Driver.antt =====
-- mesh/driver: the cluster, the gRPC handlers, the HA coordinator and the library installer.
pub mod Cluster
pub mod Live
pub mod Servicer
pub mod Ha
pub mod Installer
pub mod Targets
pub mod Install
