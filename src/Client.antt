-- ===== src/Client.antt =====
-- crates/sdkwork-rpc-client.
pub mod Resolver
pub mod LoadBalance
pub mod Watch
pub mod Metadata
pub mod Tls
pub mod Transport
pub mod RetryBudget
pub mod Discovery
pub mod Invocation
