-- ===== src/Registry.antt =====
-- Which provider a tenant's messages go to: core/services/provider_registry.go.
pub mod Lookup
pub mod Choice
mod Tests
