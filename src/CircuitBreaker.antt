-- ===== src/CircuitBreaker.antt =====
-- The circuit breaker of the proxy: pkg/proxy/circuitbreaker.
pub mod Config
pub mod Breaker
pub mod Keys
pub mod Store
pub mod Lease
pub mod Seeds
pub mod Validation
pub mod Rest
pub mod Intercept
pub mod Manager
mod Tests
