-- ===== src/Tests/Memories.antt =====
-- A memory that shares its page table.
use yat_sen_os.Prelude.{ℕ, ◌≡◌, ◌-◌, refl, arith, true, [], ◌∷◌, ok, some}
use yat_sen_os.X86.Flat.{flat}
use yat_sen_os.BTreeMap.{get}
use yat_sen_os.Elf.{Space, range_flags}
use yat_sen_os.Elf.Unmapped.{Cleared}
use yat_sen_os.Vm.Stack.Fault
use yat_sen_os.Vm.Paging.{Machine, mapper, using_count}
use yat_sen_os.Vm.Memory.{ProcessVm, release}
use yat_sen_os.Vm.Memory.Shared.{release_shared}

abbrev vm : ProcessVm
vm = record {
  page_table = 9;
  stack = record { range = record { start = 0x180000; stop = 0x180001 }; usage = 1 };
  heap = 0;
  code = [];
  code_usage = 0;
}

abbrev space : Space flat
space = record {
  table = (0x180000, record { frame = 16; flags = range_flags true }) ∷ [];
  allocator = record { size = 4; used = 1; frames = 17 ∷ 18 ∷ 19 ∷ []; recycled = [] };
}

-- Two processes use the page table.
abbrev machine : Machine flat
machine = record {
  tables = (9, space.table) ∷ [];
  refs = (9, 2) ∷ [];
  allocator = space.allocator;
  heap_ends = (0, 0x2000_0000_0000) ∷ [];
  next_heap = 1;
  cr3 = 9;
}

stack-IsValid : Fault.IsValid flat vm.stack space
unfolding get
stack-IsValid = record { ordered = omega arith; counted = refl; owned = λ q i. ground arith }

mapped_space : mapper flat 9 machine ≡ ok space
unfolding mapper get
mapped_space = refl

heap_end : get 0 machine.heap_ends ≡ some 0x2000_0000_0000
unfolding get
heap_end = refl

two_users : using_count flat 9 machine ≡ 2
unfolding using_count get
two_users = refl

release_shared_example :
    (m' : Machine flat) × (s' : Space flat) × (release flat vm machine ≡ ok m')
    × (mapper flat 9 m' ≡ ok s')
    × Cleared flat 0x180000 1 space s'
    × ((r : ℕ) → get r m'.heap_ends ≡ get r machine.heap_ends)
    × (using_count flat 9 m' ≡ using_count flat 9 machine - 1)
release_shared_example =
    release_shared flat vm machine space 0x2000_0000_0000 mapped_space heap_end
      (λ e. absurd (omega (arith, e, two_users))) stack-IsValid (omega arith) (omega arith)
