-- ===== src/Push.antt =====
-- backend/src/modules/push: the devices of a user and the delivery of notifications to them.
pub mod Schema
pub mod Service
pub mod Devices
