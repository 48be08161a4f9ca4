-- ===== src/ActionCards.antt =====
-- backend/src/modules/action-card: the suggestions of the AI service that a user acts on.
pub mod Schema
pub mod Service
pub mod Sync
