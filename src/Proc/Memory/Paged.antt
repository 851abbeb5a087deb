-- ===== src/Proc/Memory/Paged.antt =====
-- The memory of a process of src/0x01/pkg/kernel/src/proc/vm, as the process manager uses it.
use yat_sen_os.X86.{X86}
use yat_sen_os.Elf.Segments.{ElfFile}
use yat_sen_os.Vm.Paging
use yat_sen_os.Vm.Paging.{Machine}
use yat_sen_os.Vm.Memory
use yat_sen_os.Vm.Memory.{ProcessVm}
use yat_sen_os.Proc.Memory.{ProcessMemory}

abbrev pub paged : X86 → ProcessMemory
paged x = record {
  Vm = ProcessVm;
  Machine = Machine x;
  ElfFile = ElfFile;
  entry_point = λ elf. elf.entry_point;
  new_from = Memory.new_from x;
  load_elf = Memory.load_elf x;
  init_proc_stack = Memory.init_proc_stack x;
  fork = Memory.fork x;
  stack_start = Memory.stack_start;
  brk = Memory.brk x;
  handle_page_fault = Memory.handle_page_fault x;
  load = λ vm m. Paging.load x vm.page_table m;
  release = Memory.release x;
}
