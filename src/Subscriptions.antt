-- ===== src/Subscriptions.antt =====
-- backend/src/modules/subscription: the subscriptions of a user, and how they are found among the
-- transactions.
pub mod Schema
pub mod Service
pub mod Detection
pub mod Ownership
pub mod Scan
pub mod Everyone
