-- ===== src/Campaigns.antt =====
-- Campaigns: core/services/campaign_service.go and worker/campaign_executor.go.
pub mod Env
pub mod Service
pub mod Execute
pub mod Machine
pub mod Phases
pub mod Lives
pub mod Vetted
pub mod Safety
pub mod Executor
pub mod Progress
pub mod Screened
mod Tests
