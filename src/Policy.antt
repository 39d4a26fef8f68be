-- ===== src/Policy.antt =====
-- internal/policy: the circuit breaker, the rate limiter, the retry policy and autoscaling.
pub mod CircuitBreaker
pub mod RateLimiting
pub mod Retry
pub mod Autoscaling
mod Examples
