-- ===== src/Operations.antt =====
-- packages/core/src/operations: folios and deposits (billing.ts), and turnover tasks (turnover.ts).
pub mod Assignment
pub mod Billing
pub mod Turnover
pub mod Tasks
mod Tests
