-- ===== src/Discovery.antt =====
-- crates/sdkwork-rpc-discovery.
pub mod Endpoint
pub mod Headers
pub mod Announcement
pub mod Registry
pub mod Registration
pub mod Renew
