-- ===== src/Memory.antt =====
-- mesh/memory/fabric.py: the cluster's memory as one pool.
pub mod Fabric
