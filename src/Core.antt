-- ===== src/Core.antt =====
-- src/athenai/core: the exceptions and the value types that the other packages share.
pub mod Errors
pub mod Types
pub mod Config
pub mod Json
pub mod Lifecycle
mod Tests
