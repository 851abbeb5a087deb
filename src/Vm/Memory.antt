-- ===== src/Vm/Memory.antt =====
-- `ProcessVm` of src/0x01/pkg/kernel/src/proc/vm/mod.rs, with `Heap::fork` of heap.rs. The result of
-- `clean_up` is only logged by the code that drops a memory, and left out.
pub mod Shared
use yat_sen_os.Prelude.{
  ℕ, ◌+◌, ◌-◌, ◌*◌, ◌%◌, ◌^◌, Bool, true, false, Option, some, none, List, [], ◌∷◌, ◌==◌,
  if◌then◌else◌, Outcome, ok, panic, ◌>>=◌, unwrap, unwrap_okay,
}
use yat_sen_os.BTreeMap.{get, insert}
use yat_sen_os.Memory.Frames.{deallocate_frame}
use yat_sen_os.X86.{X86, page_size, containing_address, start_address}
use yat_sen_os.Elf.{Space, PageRangeInclusive, inclusive_count, map_range, unmap_range}
use yat_sen_os.Elf.Segments.{ElfFile}
use yat_sen_os.Elf.Segments
use yat_sen_os.Vm.Heap.{Heap, Brk, heap_start}
use yat_sen_os.Vm.Heap
use yat_sen_os.Vm.Stack.{Stack, stack_init_top, stack_init_bot, stack_max_size, stack_def_page}
use yat_sen_os.Vm.Stack
use yat_sen_os.Vm.Paging.{Machine, mapper, write_back, using_count}
use yat_sen_os.Vm.Paging

pub record ProcessVm : Type 0 where
  -- the root of the page table
  pub page_table : ℕ
  pub stack : Stack
  -- the reference of the heap's end
  pub heap : ℕ
  pub code : List PageRangeInclusive
  pub code_usage : ℕ

abbrev pub pages_count : List PageRangeInclusive → ℕ
pages_count [] = 0
pages_count (r ∷ rs) = inclusive_count r + pages_count rs

-- `STACK_INIT_TOP - STACK_MAX_SIZE * (pid - 1)` on 64 bits.
abbrev pub stack_slot : ℕ → ℕ → ℕ
stack_slot addr pid =
    (addr + 2 ^ 64 * stack_max_size - stack_max_size * ((pid + 2 ^ 64 - 1) % 2 ^ 64)) % 2 ^ 64

unfoldable pub init_kernel_vm : List PageRangeInclusive → ProcessVm → ProcessVm
init_kernel_vm pages vm = record vm {
  code = pages;
  code_usage = pages_count pages;
  stack = Stack.kstack;
}

unfoldable pub memory_usage : ProcessVm → ℕ
memory_usage vm = Stack.memory_usage vm.stack

unfoldable pub stack_start : ProcessVm → ℕ
stack_start vm = start_address vm.stack.range.start

module _ (x : X86) where
  unfoldable pub new : ℕ → Machine x → ProcessVm × Machine x
  new page_table m = (
    record {
      page_table = page_table;
      stack = Stack.empty;
      heap = m.next_heap;
      code = [];
      code_usage = 0;
    },
    record m { heap_ends = insert m.next_heap heap_start m.heap_ends; next_heap = m.next_heap + 1 },
  )

  -- A copy of the page table of `ProcessInner::clone_page_table`, and a new memory on it.
  unfoldable pub new_from : ProcessVm → Machine x → Outcome (ProcessVm × Machine x)
  unfolding new
  new_from kernel_vm m = do
    (root, m') ← Paging.clone_level_4 x kernel_vm.page_table m
    ok (new root m')

  unfoldable pub init_proc_stack : ℕ → ProcessVm → Machine x → Outcome (ℕ × ProcessVm × Machine x)
  init_proc_stack pid vm m = do
    top ← x.virt_addr (stack_slot stack_init_top pid)
    stack ← Stack.new (containing_address top) stack_def_page
    s ← mapper x vm.page_table m
    (result, s') ← map_range x (stack_slot stack_init_bot pid) stack_def_page true s
    range ← unwrap_okay result
    ok (top, record vm { stack = stack }, write_back x vm.page_table s' m)

  unfoldable pub handle_page_fault :
      ℕ → ProcessVm → Machine x → Outcome (Bool × ProcessVm × Machine x)
  handle_page_fault addr vm m = do
    s ← mapper x vm.page_table m
    (handled, stack, s') ← Stack.handle_page_fault x addr vm.stack s
    ok (handled, record vm { stack = stack }, write_back x vm.page_table s' m)

  -- The child shares the page table and the heap; its stack is its own.
  unfoldable pub fork : ℕ → ProcessVm → Machine x → Outcome (ProcessVm × Machine x)
  fork stack_offset_count vm m = do
    let shared = Paging.fork x vm.page_table m
    s ← mapper x vm.page_table shared
    (stack, s') ← Stack.fork x stack_offset_count vm.stack s
    ok (
      record {
        page_table = vm.page_table;
        stack = stack;
        heap = vm.heap;
        code = [];
        code_usage = 0;
      },
      write_back x vm.page_table s' shared,
    )

  -- The heap behind a reference.
  abbrev pub heap_at : ℕ → Machine x → Outcome Heap
  heap_at r m = do end ← unwrap (get r m.heap_ends); ok (record { base = heap_start; end = end })

  abbrev pub store_heap : ℕ → Heap → Machine x → Machine x
  store_heap r h m = record m { heap_ends = insert r h.end m.heap_ends }

  unfoldable pub brk : ℕ → Option ℕ → ProcessVm → Machine x → Outcome (Option ℕ × Machine x)
  brk pid addr vm m = do
    s ← mapper x vm.page_table m
    h ← heap_at vm.heap m
    b ← Heap.brk x pid addr h s
    ok (b.answer, store_heap vm.heap b.heap (write_back x vm.page_table b.space m))

  -- `load_elf_code` and the page of the first stack slot.
  unfoldable pub load_elf : ElfFile → ProcessVm → Machine x → Outcome (ProcessVm × Machine x)
  load_elf elf vm m = do
    s ← mapper x vm.page_table m
    (result, s') ← Segments.load_elf x elf true s
    code ← unwrap_okay result
    (stack, s'') ← Stack.init x vm.stack s'
    ok (
      record vm { stack = stack; code = code; code_usage = pages_count code * page_size },
      write_back x vm.page_table s'' m,
    )

  -- The ranges of the code, up to the first that cannot be unmapped.
  unfoldable pub free_code : List PageRangeInclusive → Space x → Bool × Space x
  free_code [] s = (true, s)
  free_code (r ∷ rs) s = elim (unmap_range x r true s).0 [
    | true ↦ free_code rs (unmap_range x r true s).1
    | false ↦ (false, (unmap_range x r true s).1)
  ]

  -- The tables that are empty, and the root.
  unfoldable pub free_tables : ℕ → Bool × Space x → Space x
  free_tables root (false, s) = s
  free_tables root (true, s) =
      let (table, allocator) = x.clean_up s.table s.allocator in
      record { table = table; allocator = deallocate_frame root allocator }

  -- What the last user of a page table gives back.
  unfoldable pub free_shared : ProcessVm → Bool × Heap × Space x → Heap × Space x
  unfolding free_code free_tables
  free_shared vm (false, h, s) = (h, s)
  free_shared vm (true, h, s) = (h, free_tables vm.page_table (free_code vm.code s))

  unfoldable pub clean_up : ProcessVm → Machine x → Outcome (ProcessVm × Machine x)
  unfolding free_shared using_count
  clean_up vm m = do
    s ← mapper x vm.page_table m
    (stack, s1) ← Stack.clean_up x vm.stack s
    h ← heap_at vm.heap m
    let (h', s2) =
        if using_count x vm.page_table m == 1
        then free_shared vm (Heap.clean_up x h s1)
        else (h, s1)
    ok (record vm { stack = stack }, store_heap vm.heap h' (write_back x vm.page_table s2 m))

  -- Dropping a memory: it is cleaned up, then its reference to the page table is dropped.
  unfoldable pub release : ProcessVm → Machine x → Outcome (Machine x)
  unfolding clean_up
  release vm m = do (vm', m') ← clean_up vm m; ok (Paging.drop x vm.page_table m')
