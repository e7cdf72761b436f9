-- ===== src/Sync.antt =====
-- web/src/sync
pub mod Outbox
pub mod Merge
pub mod Engine
pub mod Scheduler
pub mod Interleaving
pub mod Tests
