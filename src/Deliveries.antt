-- ===== src/Deliveries.antt =====
-- core/services/tenant_webhook_service.go.
pub mod Env
pub mod Attempt
pub mod Endpoints
pub mod Service
pub mod Attempts
pub mod Safe
mod Tests
