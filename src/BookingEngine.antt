-- ===== src/BookingEngine.antt =====
-- packages/core/src/booking-engine.
pub mod PaymentRules
mod Tests
