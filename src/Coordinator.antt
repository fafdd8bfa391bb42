-- ===== src/Coordinator.antt =====
-- wacp/crates/wacp-coordinator: the state that the coordinator keeps about tasks, workspaces, rights,
-- gates and resources. Each child models one source file.
pub mod TaskGraph
pub mod Visibility
pub mod Ownership
pub mod Resource
pub mod Gate
pub mod Tree
pub mod Scheduling
pub mod PortRights
pub mod Topology
pub mod Migration
