-- ===== src/Resilience.antt =====
-- src/athenai/resilience: circuit breaker, rate limiter, retry and timeout.
mod Tests
pub mod Breaker
pub mod RateLimiter
pub mod Retry
pub mod Timeout
