-- ===== src/Sync.antt =====
-- Locks over the scheduler's events: sys/sync.
pub mod Wait
pub mod Futex
pub mod Cond
pub mod Mutex
pub mod Rwlock
pub mod Semaphore
mod Tests
