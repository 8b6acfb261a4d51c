-- ===== src/Server.antt =====
-- crates/sdkwork-rpc-server.
pub mod Error
pub mod Serve
pub mod Tls
pub mod Security
