-- ===== src/Sync.antt =====
-- The semaphores of src/0x01/pkg/kernel/src/proc/sync.rs, and the user's wrappers around them.
pub mod Semaphore
pub mod SemaphoreSet
