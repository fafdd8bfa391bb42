-- ===== src/Llm.antt =====
-- wacp/crates/wacp-llm/src: what the clients of language models decide about errors, retries and limits.
pub mod Errors
pub mod Retry
pub mod RateLimit
pub mod Cost
pub mod Prices
