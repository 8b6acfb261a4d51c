-- ===== src/Tests.antt =====
-- The tests: concrete instances of what the framework calls, and the theorems applied to them.
pub mod Instances
pub mod JsonSample
pub mod Caller
pub mod Identity
mod Retry
mod Breaker
mod Threads
mod Balance
pub mod Watch
mod Admission
mod Vocabulary
pub mod Outbound
pub mod Wire
mod Budget
mod Trace
pub mod Registration
mod Shutdown
mod Session
mod Handled
