-- ===== src/Agents.antt =====
-- src/athenai/agents: the state machine of a run and the executor's loop.
mod Tests
pub mod State
pub mod Trace
pub mod Protocol
pub mod Executor
