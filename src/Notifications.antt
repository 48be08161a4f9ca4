-- ===== src/Notifications.antt =====
-- backend/src/modules/notification: the inbox of a user, the preferences and the alerts.
pub mod Schema
pub mod Preferences
pub mod Service
pub mod Alerts
pub mod Inbox
pub mod Muted
