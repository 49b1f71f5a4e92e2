-- ===== src/Runtime.antt =====
-- src/athenai/runtime: the orchestration of one model call.
pub mod Pipeline
pub mod Admission
mod Tests
