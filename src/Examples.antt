-- ===== src/Examples.antt =====
-- A small cluster and a small CloudStack, and the theorems at work on them.
pub mod Data
pub mod Parts
pub mod Locks
pub mod Nodes
pub mod Cluster
pub mod Keeper
pub mod Servers
pub mod Teams
pub mod Queues
