-- ===== src/Weekly.antt =====
-- backend/src/modules/weekly-summary: the summaries of the weeks of a user.
pub mod Schema
pub mod Totals
pub mod Service
pub mod Weeks
pub mod Overspent
