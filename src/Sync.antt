-- ===== src/Sync.antt =====
-- src/sync: communication between threads.
pub mod Channel
pub mod SpinLock
