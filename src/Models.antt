-- ===== src/Models.antt =====
-- src/athenai/models: the adapters of the model backends, and the registry of roles.
pub mod Base
pub mod Mock
pub mod Wire
pub mod Cloud
pub mod Local
pub mod Registry
mod Tests
