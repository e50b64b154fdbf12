-- ===== src/Resilience.antt =====
-- internal/resilience: the circuit breaker and the retry loop, for calls of external services.
pub mod Failure
pub mod Breaker
pub mod Retry
pub mod Tests
