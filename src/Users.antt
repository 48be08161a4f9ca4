-- ===== src/Users.antt =====
-- The users of backend/src/modules/user: their profiles, their passwords and their sessions.
pub mod Schema
pub mod Tokens
pub mod Auth
pub mod Service
pub mod Dashboard
pub mod Revocation
pub mod Sequences
pub mod Versions
pub mod SignedOut
pub mod Password
pub mod Rotation
