-- ===== src/Api.antt =====
-- The api service: alerts, their decisions and pages, idempotent requests, and the lock of the
-- migrations.
pub mod Alerts
pub mod Base64
pub mod Cursor
pub mod Idempotency
pub mod Migrations
