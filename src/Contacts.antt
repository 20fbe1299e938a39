-- ===== src/Contacts.antt =====
-- core/services/contact_service.go and core/domain/consent_keywords.go.
pub mod Env
pub mod Keywords
pub mod Records
pub mod Service
pub mod Import
pub mod Consent
mod Tests
