-- ===== src/Workspace.antt =====
-- wacp/crates/wacp-workspace/src/state.rs: the state of a workspace.
pub mod State
pub mod Inbox
pub mod Snapshot
