-- ===== src/Resilience.antt =====
-- crates/sdkwork-rpc-resilience.
pub mod Backoff
pub mod Policy
pub mod Retry
pub mod CircuitBreaker
