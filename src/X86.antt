-- ===== src/X86.antt =====
-- What the kernel relies on of the crate `x86_64`: canonical addresses and the page mapper. They are
-- parameters, the laws are what the crate documents. A `Page<Size4KiB>` is its number, the start
-- address divided by 4096.
pub mod Flat
use yat_sen_os.Prelude.{
  ℕ, zero, suc, ◌*◌, ◌/◌, ◌^◌, ◌<◌, ◌≤◌, ◌≡◌, Bool, Option, none, some, ◌==◌, if◌then◌else◌,
  Outcome, ok, panic, ◌+◌, ◌-◌,
}
use yat_sen_os.Memory.Frames.{BootInfoFrameAllocator, allocate_frame}

abbrev pub page_size : ℕ
page_size = 4096

-- `Page::containing_address` and `start_address`, over page numbers.
abbrev pub containing_address : ℕ → ℕ
containing_address addr = addr / page_size

abbrev pub start_address : ℕ → ℕ
start_address page = page * page_size

pub record PageTableFlags : Type 0 where
  pub present : Bool
  pub writable : Bool
  pub user_accessible : Bool
  pub no_execute : Bool

pub data MapToError : Type 0 where
  frame_allocation_failed : MapToError
  parent_entry_huge_page : MapToError
  page_already_mapped : ℕ → MapToError

pub data MapResult : Type 0 where
  mapped : MapResult
  failed : MapToError → MapResult

-- What `translate_page` sees of a page: its frame and its flags.
pub record Mapping : Type 0 where
  pub frame : ℕ
  pub flags : PageTableFlags

-- `n` calls of `allocate_frame`, for the tables between the root and a page.
abbrev pub allocate_times : ℕ → BootInfoFrameAllocator → BootInfoFrameAllocator
allocate_times zero a = a
allocate_times (suc n) a = allocate_times n (allocate_frame a).1

pub record X86 : Type 1 where
  -- `VirtAddr::new`, which panics on an address that is not canonical
  pub virt_addr : ℕ → Outcome ℕ
  pub virt_addr-low : (a : ℕ) → a < 2 ^ 47 → virt_addr a ≡ ok a
  pub virt_addr-hole : (a : ℕ) → 2 ^ 47 ≤ a → a < 2 ^ 64 - 2 ^ 47 → virt_addr a ≡ panic
  -- `OffsetPageTable`
  pub Table : Type 0
  pub translate : ℕ → Table → Option Mapping
  pub map_to :
      ℕ → Mapping → Table → BootInfoFrameAllocator → MapResult × Table × BootInfoFrameAllocator
  pub unmap : ℕ → Table → Option ℕ × Table
  -- `clean_up`, which gives back the page tables that are empty
  pub clean_up : Table → BootInfoFrameAllocator → Table × BootInfoFrameAllocator
  pub clean_up-translate :
      (p : ℕ) (t : Table) (a : BootInfoFrameAllocator)
      → translate p (clean_up t a).0 ≡ translate p t
  -- a page that is mapped already is refused
  pub map_to-taken :
      (p : ℕ) (m n : Mapping) (t : Table) (a : BootInfoFrameAllocator)
      → translate p t ≡ some n
      → (map_to p m t a).0 ≡ MapResult.failed (MapToError.page_already_mapped n.frame)
  -- a call that succeeds maps that page, and a call that fails maps none
  pub map_to-mapped :
      (p q : ℕ) (m : Mapping) (t : Table) (a : BootInfoFrameAllocator)
      → (map_to p m t a).0 ≡ MapResult.mapped
      → translate q (map_to p m t a).1 ≡ (if p == q then some m else translate q t)
  pub map_to-failed :
      (p q : ℕ) (m : Mapping) (t : Table) (a : BootInfoFrameAllocator) (e : MapToError)
      → (map_to p m t a).0 ≡ MapResult.failed e
      → translate q (map_to p m t a).1 ≡ translate q t
  pub map_to-frames :
      (p : ℕ) (m : Mapping) (t : Table) (a : BootInfoFrameAllocator)
      → (n : ℕ) × ((map_to p m t a).2 ≡ allocate_times n a)
  -- a page that is not mapped is refused
  pub unmap-mapped :
      (p q : ℕ) (n : Mapping) (t : Table)
      → translate p t ≡ some n
      → ((unmap p t).0 ≡ some n.frame)
        × (translate q (unmap p t).1 ≡ (if p == q then none else translate q t))
  pub unmap-missing : (p : ℕ) (t : Table) → translate p t ≡ none → unmap p t ≡ (none, t)
