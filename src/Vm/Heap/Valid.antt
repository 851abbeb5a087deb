-- ===== src/Vm/Heap/Valid.antt =====
-- When a heap and a page table agree.
use yat_sen_os.Prelude.{ℕ, ◌+◌, ◌-◌, ◌≤◌, ◌≡◌, none, arith}
use yat_sen_os.X86.{X86, containing_address}
use yat_sen_os.Elf.{Space}
use yat_sen_os.Elf.Mapped.{at_page}
use yat_sen_os.Elf.Unmapped.{AllMapped}
use yat_sen_os.Vm.Heap.{Heap, heap_start, heap_end, heap_pages, page_above}

abbrev pub first_page : ℕ
first_page = containing_address heap_start

-- The page after the last one that the heap uses.
abbrev pub top : ℕ → ℕ
top e = page_above heap_start e

-- The pages of the heap up to its end are mapped, those above are not, up to the page after the
-- heap's 4 GiB.
pub record IsValid (x : X86) (h : Heap) (s : Space x) : Type 0 where
  pub based : h.base ≡ heap_start
  pub lower : heap_start ≤ h.end
  pub upper : h.end ≤ heap_end
  pub used : AllMapped x first_page (top h.end - first_page) s
  pub free : (q : ℕ) → top h.end ≤ q → q ≤ first_page + heap_pages → at_page x q s ≡ none

pub first-le-top : (e : ℕ) → heap_start ≤ e → first_page ≤ top e
first-le-top e h = ground arith

pub top_mono : (d e : ℕ) → heap_start ≤ d → d ≤ e → top d ≤ top e
top_mono d e l h = ground arith

pub top-le : (e : ℕ) → heap_start ≤ e → e ≤ heap_end → top e ≤ first_page + heap_pages
top-le e l h = ground arith

-- A heap that starts where it should.
abbrev pub heap_to : ℕ → Heap
heap_to e = record { base = heap_start; end = e }

pub eq-heap_to : (h : Heap) → h.base ≡ heap_start → h ≡ heap_to h.end
eq-heap_to h e = ground arith
