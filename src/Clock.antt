-- ===== src/Clock.antt =====
-- wacp/crates/wacp-clock: the hybrid logical clock.
pub mod Timestamp
pub mod Bytes
pub mod Hlc
pub mod Order
