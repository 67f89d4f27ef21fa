-- ===== src/Sharding.antt =====
-- The controllers of sharding configurations: pkg/manager/controllers/shardingconfigserver.
pub mod Streams
pub mod Config
pub mod Auto
pub mod Reconcile
pub mod Validation
mod Tests
