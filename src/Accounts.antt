-- ===== src/Accounts.antt =====
-- backend/src/modules/account/account.service.ts.
pub mod Schema
pub mod Service
pub mod Reports
pub mod Primary
pub mod Worth
