-- ===== src/Mail.antt =====
-- The clients of sending inside the module: core/services/email_sender.go and
-- core/services/messaging_gateway.go.
pub mod Requests
pub mod Gateway
mod Tests
