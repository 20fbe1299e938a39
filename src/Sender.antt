-- ===== src/Sender.antt =====
-- worker/sender.go.
pub mod Env
pub mod Request
pub mod Attempt
pub mod Delivery
pub mod Retries
mod Tests
