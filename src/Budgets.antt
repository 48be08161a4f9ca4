-- ===== src/Budgets.antt =====
-- backend/src/modules/budget: spending limits over a period.
pub mod Schema
pub mod Service
pub mod Summary
pub mod Spending
