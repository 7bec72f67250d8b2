-- ===== src/Sync.antt =====
-- packages/sync/src: building, applying and pushing batches of ARI values.
pub mod Dates
pub mod Encode
pub mod Apply
pub mod Diff
pub mod Build
pub mod Push
mod Samples
mod Tests
