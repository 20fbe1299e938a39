-- ===== src/Onboarding.antt =====
-- Linking a tenant's WhatsApp account: core/services/whatsapp_onboarding_service.go.
pub mod Env
pub mod Accounts
pub mod Sync
pub mod Sessions
pub mod Commands
pub mod Isolation
pub mod Phones
pub mod Callback
mod Tests
