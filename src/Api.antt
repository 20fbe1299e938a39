-- ===== src/Api.antt =====
-- The HTTP layer: adapters/http/response.go and adapters/http/validation.go.
pub mod Respond
pub mod Order
pub mod Validate
pub mod Refusals
pub mod Normal
mod Tests
