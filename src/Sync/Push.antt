-- ===== src/Sync/Push.antt =====
-- packages/sync/src/push: the store of cells, the circuit breaker and the push of pending cells.
pub mod Breaker
pub mod Store
pub mod Reference
pub mod Pipeline
pub mod Verify
pub mod Property
mod Tests
