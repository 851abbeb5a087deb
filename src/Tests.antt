-- ===== src/Tests.antt =====
-- Runs of the model on concrete inputs, and the theorems applied to such inputs.
pub mod Semaphores
pub mod Frames
pub mod Paging
pub mod Scheduling
pub mod Consoles
pub mod Memories
pub mod Interrupts
pub mod Users
pub mod Devices
pub mod Queues
pub mod Vectors
pub mod Counters
