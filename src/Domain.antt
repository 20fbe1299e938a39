-- ===== src/Domain.antt =====
-- core/domain.
pub mod Errors
pub mod Message
pub mod Contact
pub mod Template
pub mod Event
pub mod Campaign
