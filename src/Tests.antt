-- ===== src/Tests.antt =====
-- The theorems at concrete inputs.
pub mod Fixture
pub mod Kernel
pub mod Driver
pub mod Moderation
pub mod Lifecycle
pub mod Roles
pub mod Details
pub mod Network
pub mod Relations
pub mod Inbox
pub mod Projection
pub mod HttpSigning
pub mod Route
