-- ===== src/Routing.antt =====
-- src/athenai/routing: policies, scorer and router.
mod Tests
pub mod Policies
pub mod Scorer
pub mod Router
pub mod Selection
pub mod Circuits
