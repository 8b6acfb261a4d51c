-- ===== src/Core.antt =====
-- crates/sdkwork-rpc-core.
pub mod Error
pub mod Profile
pub mod ResolverProfile
pub mod Surface
pub mod Bootstrap
pub mod Identifier
pub mod Identity
pub mod Time
pub mod ServiceIdentity
pub mod CallerContext
