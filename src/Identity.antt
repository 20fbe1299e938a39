-- ===== src/Identity.antt =====
-- Who may do what: pkg/permissions/permissions.go and pkg/authctx/authctx.go.
pub mod Permissions
pub mod Context
pub mod Claims
pub mod Bridge
pub mod Grants
pub mod Bridged
mod Tests
