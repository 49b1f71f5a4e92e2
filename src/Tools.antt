-- ===== src/Tools.antt =====
-- src/athenai/tools: the registry, the validator, and the HTTP and SQL tools.
mod Tests
pub mod Registry
pub mod Validator
pub mod Http
pub mod Sql
pub mod Calculator
