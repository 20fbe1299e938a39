-- ===== src/Webhook.antt =====
-- core/services/webhook_service.go.
pub mod Env
pub mod Whatsapp
pub mod EmailEvents
pub mod Ranks
pub mod Feedback
mod Tests
