-- ===== src/FaultInjection.antt =====
-- The fault injection of the proxy: pkg/proxy/faultinjection.
pub mod Config
pub mod Store
pub mod Match
pub mod Window
pub mod Injector
pub mod Manager
mod Tests
