-- ===== src/Shared.antt =====
-- packages/core/src/shared: the value types that every domain uses.
pub mod Date
pub mod DateRange
pub mod Money
pub mod Result
mod Tests
