-- ===== src/Context.antt =====
-- src/athenai/context: token budget, packing, the engine that assembles a prompt, and ranking.
mod Tests
pub mod Budget
pub mod Packing
pub mod Engine
pub mod Ranking
