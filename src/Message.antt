-- ===== src/Message.antt =====
-- core/services/message_service.go.
pub mod Email
pub mod Env
pub mod Checks
pub mod Build
pub mod Send
pub mod Rules
pub mod Trace
pub mod Cleared
pub mod Growth
pub mod Sent
pub mod Safety
pub mod Bulk
pub mod Idempotency
pub mod Tests
