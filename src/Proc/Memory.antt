-- ===== src/Proc/Memory.antt =====
-- What the process code uses of a process's memory. The `Machine` holds what the memories of all
-- processes share: the frame allocator, the page tables, the ends of the heaps.
pub mod Paged
use yat_sen_os.Prelude.{ℕ, Bool, Option, Outcome}

pub record ProcessMemory : Type 1 where
  pub Vm : Type 0
  pub Machine : Type 0
  pub ElfFile : Type 0
  pub entry_point : ElfFile → ℕ
  -- `ProcessVm::new` on a copy of the top table of the given memory
  pub new_from : Vm → Machine → Outcome (Vm × Machine)
  pub load_elf : ElfFile → Vm → Machine → Outcome (Vm × Machine)
  pub init_proc_stack : ℕ → Vm → Machine → Outcome (ℕ × Vm × Machine)
  pub fork : ℕ → Vm → Machine → Outcome (Vm × Machine)
  pub stack_start : Vm → ℕ
  pub brk : ℕ → Option ℕ → Vm → Machine → Outcome (Option ℕ × Machine)
  pub handle_page_fault : ℕ → Vm → Machine → Outcome (Bool × Vm × Machine)
  -- loading the page table into the processor
  pub load : Vm → Machine → Machine
  -- dropping a memory
  pub release : Vm → Machine → Outcome Machine
