-- ===== src/Coordinator/Resource.antt =====
-- wacp/crates/wacp-coordinator/src/resource.rs: timeouts, budgets and liveness.
pub mod Timeouts
pub mod Elapsed
pub mod Budget
pub mod Limits
pub mod Liveness
