-- ===== src/Auth.antt =====
-- backend/auth-service: users, sign-in and the rotation of tokens.
pub mod Entity
pub mod Repository
pub mod Users
pub mod Session
pub mod Server
pub mod Metering
