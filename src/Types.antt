-- ===== src/Types.antt =====
-- wacp/crates/wacp-types: the identifiers and closed sets that every crate shares.
pub mod Enums
pub mod Records
