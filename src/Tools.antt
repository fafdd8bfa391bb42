-- ===== src/Tools.antt =====
-- wacp/crates/wacp-tools/src: the invocation of tools.
pub mod Breaker
