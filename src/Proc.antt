-- ===== src/Proc.antt =====
-- Processes, src/0x01/pkg/kernel/src/proc.
pub mod Context
pub mod Data
pub mod Memory
pub mod Process
pub mod Kernel
pub mod Calls
