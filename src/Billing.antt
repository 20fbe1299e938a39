-- ===== src/Billing.antt =====
-- The wallet: core/services/billing_service.go.
pub mod Env
pub mod Service
pub mod Charges
mod Tests
