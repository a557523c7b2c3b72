-- ===== src/Audit.antt =====
-- The audit service: the hash chain, the event repository, the retention of old events and the
-- signed checkpoints.
pub mod Chain
pub mod Records
pub mod Repository
pub mod Verify
pub mod Retention
pub mod Integrity
pub mod Checkpoint
mod Tests
