-- ===== src/Memory.antt =====
-- src/athenai/memory: the message log and its summaries.
mod Tests
pub mod Conversation
pub mod Semantic
pub mod Working
pub mod Summary
