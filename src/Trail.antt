-- ===== src/Trail.antt =====
-- wacp/crates/wacp-trail/src: the trail of a run.
pub mod Chain
pub mod Memory
