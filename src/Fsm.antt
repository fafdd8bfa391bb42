-- ===== src/Fsm.antt =====
-- wacp/crates/wacp-fsm: the three lifecycle state machines, and what they share.
pub mod Machine
pub mod Workspace
pub mod Envelope
pub mod Task
