-- ===== src/Notification.antt =====
-- The notification service: delivery intents, their dead letters, and the worker that delivers.
pub mod Records
pub mod Repository
pub mod Worker
pub mod DecisionToken
mod Tests
