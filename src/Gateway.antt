-- ===== src/Gateway.antt =====
-- src/athenai/gateway: the HTTP layer. FastAPI and pydantic are outside; a handler is a function on the
-- decoded body and the application's state.
pub mod Schemas
pub mod Routes
pub mod App
pub mod Requests
pub mod Chat
pub mod Startup
pub mod Runs
pub mod CloudRuns
pub mod Accounting
mod Tests
