-- ===== src/Access.antt =====
-- adapters/http/middleware.go.
pub mod Limiter
pub mod Windows
mod Tests
