-- ===== src/Goals.antt =====
-- backend/src/modules/goal/goal.service.ts.
pub mod Schema
pub mod Service
pub mod Contributions
pub mod Completion
