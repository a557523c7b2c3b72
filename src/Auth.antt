-- ===== src/Auth.antt =====
-- The auth service: logins, the rotation of refresh tokens, the administration of users, and the
-- background tasks on sessions and on the audit outbox.
pub mod Records
pub mod Repositories
pub mod Refresh
pub mod Rotation
pub mod Lockout
pub mod Login
pub mod AdminEvents
pub mod Users
pub mod Authz
pub mod Sweep
pub mod Drain
mod Tests
