-- ===== src/Templates.antt =====
-- Message templates and their approval: core/services/template_service.go.
pub mod Env
pub mod Service
pub mod Worker
pub mod Approval
pub mod Emails
pub mod Versions
mod Tests
