-- ===== src/Conversations.antt =====
-- Conversations of a tenant: core/services/conversation_service.go.
pub mod Service
pub mod Sound
mod Tests
