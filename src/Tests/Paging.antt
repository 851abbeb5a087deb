-- ===== src/Tests/Paging.antt =====
-- Page ranges, heaps and stacks, on the flat page table.
use yat_sen_os.Prelude.{
  ◌≡◌, refl, ◌+◌, ◌<◌, ℕ, Bool, true, false, some, none, [], ◌∷◌, arith, ok, panic, okay, Result,
}
use yat_sen_os.Memory.Frames.{BootInfoFrameAllocator}
use yat_sen_os.X86.{MapToError}
use yat_sen_os.X86.Flat.{flat}
use yat_sen_os.BTreeMap.{get, insert}
use yat_sen_os.Elf.{
  Space, PageRange, PageRangeInclusive, map_range, unmap_pages, unmap_range, range_flags, within,
  inclusive_count,
}
use yat_sen_os.Elf.Mapped.{at_page, Fresh, map_range_lem}
use yat_sen_os.Elf.Unmapped.{AllMapped, Cleared}
use yat_sen_os.Elf.Roundtrip.{map_range-unmap_pages, unmap_range-Cleared, unmap_range-stops}
use yat_sen_os.Vm.Heap.{Heap, Brk, brk, refused, clean_up, heap_start, heap_end}
use yat_sen_os.Vm.Heap
use yat_sen_os.Vm.Heap.Valid
use yat_sen_os.Vm.Heap.Valid.{top, first_page}
use yat_sen_os.Vm.Heap.Grow.{Grown, brk-grow}
use yat_sen_os.Vm.Heap.Shrink.{brk-shrink}
use yat_sen_os.Vm.Heap.Release.{clean_up-Cleared}
use yat_sen_os.Vm.Heap.Answer.{Returns, brk_lem}
use yat_sen_os.Vm.Stack.{Stack, is_on_stack, handle_page_fault}
use yat_sen_os.Vm.Stack
use yat_sen_os.Vm.Stack.Fault
use yat_sen_os.Vm.Stack.Fault.{Reaches, handle_page_fault-Reaches, handle_page_fault-panic}

abbrev frames : BootInfoFrameAllocator
frames = record { size = 4; used = 0; frames = 16 ∷ 17 ∷ 18 ∷ 19 ∷ []; recycled = [] }

abbrev blank : Space flat
blank = record { table = []; allocator = frames }

abbrev range : PageRange
range = record { start = 2; stop = 4 }

-- The pages 2 and 3 mapped.
abbrev two_pages : Space flat
two_pages = record {
  table =
      (2, record { frame = 16; flags = range_flags true })
      ∷ (3, record { frame = 17; flags = range_flags true })
      ∷ [];
  allocator = record { size = 4; used = 2; frames = 18 ∷ 19 ∷ []; recycled = [] };
}

map_two : map_range flat 0x2000 2 true blank ≡ ok (okay range, two_pages)
unfolding map_range yat_sen_os.Elf.add_page get insert yat_sen_os.Elf.map_page
    yat_sen_os.Memory.Frames.allocate_frame
map_two = refl

map_range_lem_example :
    (out : Result PageRange MapToError × Space flat) × (map_range flat 0x2000 2 true blank ≡ ok out)
    × ((q : ℕ) → within 2 2 q ≡ false → at_page flat q out.1 ≡ at_page flat q blank)
    × ((r : PageRange)
        → out.0 ≡ okay r
        → (r.start ≡ 2)
          × (r.stop ≡ 4)
          × ((q : ℕ)
              → within 2 2 q ≡ true
              → Fresh flat (range_flags true) (at_page flat q blank) (at_page flat q out.1)))
map_range_lem_example = map_range_lem flat 0x2000 2 true blank (omega arith)

map_range-unmap_pages_example :
    (s2 : Space flat) × (unmap_pages flat 0x2000 2 true two_pages ≡ ok (true, s2))
    × ((q : ℕ) → at_page flat q s2 ≡ at_page flat q blank)
map_range-unmap_pages_example =
    map_range-unmap_pages flat 0x2000 2 true true range blank two_pages (omega arith) (omega arith)
      map_two

two_pages-AllMapped : (n : ℕ) → n < 3 → AllMapped flat 2 n two_pages
unfolding get
two_pages-AllMapped n h q i = ground arith

unmap_range-Cleared_run :
    ((unmap_range flat (record { start = 2; stop = 3 }) true two_pages).0 ≡ true)
    × Cleared flat 2 2 two_pages
        (unmap_range flat (record { start = 2; stop = 3 }) true two_pages).1
unmap_range-Cleared_run =
    unmap_range-Cleared flat (record { start = 2; stop = 3 }) true two_pages
      (two_pages-AllMapped 2 (omega arith))

page_4-free : at_page flat 4 two_pages ≡ none
unfolding get
page_4-free = refl

unmap_range-stops_run :
    ((unmap_range flat (record { start = 2; stop = 5 }) true two_pages).0 ≡ false)
    × Cleared flat 2 2 two_pages
        (unmap_range flat (record { start = 2; stop = 5 }) true two_pages).1
unmap_range-stops_run =
    unmap_range-stops flat (record { start = 2; stop = 5 }) 2 true two_pages (omega arith)
      (two_pages-AllMapped 2 (omega arith)) page_4-free

-- A heap that ends in its second page.
abbrev heap : Heap
heap = record { base = heap_start; end = heap_start + 5000 }

abbrev heap_space : Space flat
heap_space = record {
  table =
      (first_page, record { frame = 16; flags = range_flags true })
      ∷ (first_page + 1, record { frame = 17; flags = range_flags true })
      ∷ [];
  allocator = record { size = 4; used = 2; frames = 18 ∷ 19 ∷ []; recycled = [] };
}

heap-IsValid : Valid.IsValid flat heap heap_space
unfolding get
heap-IsValid = record {
  based = refl;
  lower = omega arith;
  upper = omega arith;
  used = λ q i. ground arith;
  free = λ q low up. ground arith;
}

brk_lem_example : Returns flat 2 (some (heap_start + 9000)) heap heap_space
brk_lem_example = brk_lem flat 2 (some (heap_start + 9000)) heap heap_space heap-IsValid

brk-grow_run :
    (b : Brk flat) × (brk flat 2 (some (heap_start + 9000)) heap heap_space ≡ ok b)
    × Grown flat true (heap_start + 5000) (heap_start + 9000) heap_space b
brk-grow_run =
    brk-grow flat 2 (heap_start + 9000) heap heap_space heap-IsValid (omega arith) (omega arith)

brk-shrink_example :
    (s' : Space flat) × (brk flat 2 (some (heap_start + 16)) heap heap_space
      ≡ ok (refused flat heap s'))
    × Cleared flat (first_page + 1) 1 heap_space s'
brk-shrink_example =
    brk-shrink flat 2 (heap_start + 16) heap heap_space heap-IsValid (omega arith) (omega arith)

clean_up-Cleared_run :
    (s' : Space flat) × (clean_up flat heap heap_space ≡ (true, Heap.empty, s'))
    × Cleared flat first_page 2 heap_space s'
clean_up-Cleared_run = clean_up-Cleared flat heap heap_space heap-IsValid

-- A stack of one page, in the second 4 GiB.
abbrev stack : Stack
stack = record { range = record { start = 0x180000; stop = 0x180001 }; usage = 1 }

abbrev stack_space : Space flat
stack_space = record {
  table = (0x180000, record { frame = 16; flags = range_flags true }) ∷ [];
  allocator = record { size = 4; used = 1; frames = 17 ∷ 18 ∷ 19 ∷ []; recycled = [] };
}

stack-IsValid : Fault.IsValid flat stack stack_space
unfolding get
stack-IsValid = record { ordered = omega arith; counted = refl; owned = λ q i. ground arith }

below_stack : is_on_stack 0x17ffffff8 stack ≡ true
unfolding is_on_stack
below_stack = refl

above_stack : is_on_stack 0x180005000 stack ≡ true
unfolding is_on_stack
above_stack = refl

handle_page_fault-Reaches_example :
    (out : Bool × Stack × Space flat) × (handle_page_fault flat 0x17ffffff8 stack stack_space
      ≡ ok out)
    × Reaches flat 0x17ffff stack stack_space out
handle_page_fault-Reaches_example =
    handle_page_fault-Reaches flat 0x17ffffff8 stack stack_space stack-IsValid below_stack
      (omega arith) (omega arith)

handle_page_fault-panic_run : handle_page_fault flat 0x180005000 stack stack_space ≡ panic
handle_page_fault-panic_run =
    handle_page_fault-panic flat 0x180005000 stack stack_space above_stack (omega arith)
