-- ===== src/Vm.antt =====
-- A process's memory, src/0x01/pkg/kernel/src/proc/vm.
pub mod Heap
pub mod Stack
pub mod Paging
pub mod Memory
