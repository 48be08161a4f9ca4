-- ===== src/Sms.antt =====
-- backend/src/modules/sms: bank messages that become transactions.
pub mod Schema
pub mod Keywords
pub mod Parsing
pub mod Service
pub mod Ingest
pub mod Categories
