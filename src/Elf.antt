-- ===== src/Elf.antt =====
-- The page ranges of src/0x01/pkg/elf/src/lib.rs. Logging is left out, and with it the translation
-- of the first page that `map_range` only logs.
pub mod Mapped
pub mod UserHeap
pub mod Unmapped
pub mod Roundtrip
pub mod Segments
use yat_sen_os.Prelude.{
  ℕ, zero, suc, ◌+◌, ◌-◌, ◌*◌, ◌%◌, ◌^◌, ◌≡◌, Bool, true, false, Option, none, some, ◌==◌, leb, ltb,
  ◌&&◌, if◌then◌else◌, Outcome, ok, panic, ◌>>=◌, Result, okay, error, map_okay,
}
use yat_sen_os.Memory.Frames.{BootInfoFrameAllocator, allocate_frame, deallocate_frame}
use yat_sen_os.X86.{
  X86, PageTableFlags, MapToError, frame_allocation_failed, MapResult, mapped, failed,
  containing_address, start_address, page_size,
}

-- A page table and the frame allocator.
pub record Space (x : X86) : Type 0 where
  pub table : x.Table
  pub allocator : BootInfoFrameAllocator

-- The pages from `start` up to `stop`, without `stop`.
pub record PageRange : Type 0 where
  pub start : ℕ
  pub stop : ℕ

-- The pages from `start` up to `stop`, with `stop`.
pub record PageRangeInclusive : Type 0 where
  pub start : ℕ
  pub stop : ℕ

abbrev pub inclusive_count : PageRangeInclusive → ℕ
inclusive_count r = suc r.stop - r.start

-- `PRESENT | WRITABLE`, with `USER_ACCESSIBLE` where it is asked for.
abbrev pub range_flags : Bool → PageTableFlags
range_flags user_access = record {
  present = true;
  writable = true;
  user_accessible = user_access;
  no_execute = false;
}

abbrev pub user_heap_flags : PageTableFlags
user_heap_flags = record {
  present = true;
  writable = true;
  user_accessible = true;
  no_execute = true;
}

module _ (x : X86) where
  unfoldable pub enter : ℕ → ℕ → PageTableFlags → Space x → Result (Unit {0}) MapToError × Space x
  enter page frame flags s =
      let (r, t, a) = x.map_to page (record { frame = frame; flags = flags }) s.table s.allocator in
      elim r [
        | mapped ↦ (okay tt, record { table = t; allocator = a })
        | failed e ↦ (error e, record { table = t; allocator = a })
      ]

  -- One round of the loops over a range: a frame from the allocator, mapped to the page.
  unfoldable pub map_page : ℕ → PageTableFlags → Space x → Result (Unit {0}) MapToError × Space x
  unfolding enter
  map_page page flags s =
      let (r, a) = allocate_frame s.allocator in
      elim r [
        | none ↦ (error frame_allocation_failed, record s { allocator = a })
        | some frame ↦ enter page frame flags (record s { allocator = a })
      ]

  unfoldable pub map_pages :
      ℕ → ℕ → PageTableFlags → Space x → Result (Unit {0}) MapToError × Space x
  map_pages page zero flags s = (okay tt, s)
  map_pages page (suc n) flags s = elim (map_page page flags s).0 [
    | okay _ ↦ map_pages (suc page) n flags (map_page page flags s).1
    | error e ↦ (error e, (map_page page flags s).1)
  ]

  abbrev pub with_range :
      PageRange → Result (Unit {0}) MapToError × Space x → Result PageRange MapToError × Space x
  with_range range out = (map_okay (λ _. range) out.0, out.1)

  -- `VirtAddr + u64` and `VirtAddr - u64`, which panic where the result is no address.
  abbrev pub add_addr : ℕ → ℕ → Outcome ℕ
  add_addr addr n = if ltb (addr + n) (2 ^ 64) then x.virt_addr (addr + n) else panic

  abbrev pub sub_addr : ℕ → ℕ → Outcome ℕ
  sub_addr addr n = if ltb addr n then panic else x.virt_addr (addr - n)

  -- `Page + u64` and `Page - u64`, by the addresses; the product with the page size wraps.
  unfoldable pub add_page : ℕ → ℕ → Outcome ℕ
  add_page page n = do
    a ← add_addr (start_address page) (n * page_size % 2 ^ 64)
    ok (containing_address a)

  unfoldable pub sub_page : ℕ → ℕ → Outcome ℕ
  sub_page page n = do
    a ← sub_addr (start_address page) (n * page_size % 2 ^ 64)
    ok (containing_address a)

  -- The loop over `Page::range(range_start, range_end)`.
  abbrev pub map_between :
      PageRange → PageTableFlags → Space x → Result PageRange MapToError × Space x
  map_between range flags s =
      with_range range (map_pages range.start (range.stop - range.start) flags s)

  unfoldable pub map_range :
      ℕ → ℕ → Bool → Space x → Outcome (Result PageRange MapToError × Space x)
  unfolding map_pages add_page
  map_range addr count user_access s = do
    a ← x.virt_addr addr
    range_end ← add_page (containing_address a) count
    let range : PageRange = record { start = containing_address a; stop = range_end }
    ok (map_between range (range_flags user_access) s)

  unfoldable pub user_map_range : ℕ → ℕ → Space x → Outcome (Result PageRange MapToError × Space x)
  unfolding map_pages add_page
  user_map_range addr count s = do
    a ← x.virt_addr addr
    range_end ← add_page (containing_address a) count
    let range : PageRange = record { start = containing_address a; stop = range_end }
    ok (map_between range user_heap_flags s)

  abbrev pub freed : Bool → ℕ → x.Table → Space x → Space x
  freed dealloc frame t s = record {
    table = t;
    allocator = if dealloc then deallocate_frame frame s.allocator else s.allocator;
  }

  unfoldable pub unmap_loop : ℕ → ℕ → Bool → Space x → Bool × Space x
  unmap_loop page zero dealloc s = (true, s)
  unmap_loop page (suc n) dealloc s = elim (x.unmap page s.table).0 [
    | none ↦ (false, record s { table = (x.unmap page s.table).1 })
    | some frame ↦ unmap_loop (suc page) n dealloc (freed dealloc frame (x.unmap page s.table).1 s)
  ]

  -- `true` is `Ok(())`. The kinds of `UnmapError` are not told apart: the callers only log them.
  unfoldable pub unmap_range : PageRangeInclusive → Bool → Space x → Bool × Space x
  unfolding unmap_loop
  unmap_range range dealloc s = unmap_loop range.start (inclusive_count range) dealloc s

  unfoldable pub unmap_pages : ℕ → ℕ → Bool → Space x → Outcome (Bool × Space x)
  unfolding unmap_range add_page sub_page
  unmap_pages addr pages dealloc s = do
    a ← x.virt_addr addr
    past ← add_page (containing_address a) pages
    end ← sub_page past 1
    ok (unmap_range (record { start = containing_address a; stop = end }) dealloc s)

-- A page of the `n` pages from `p`.
abbrev pub within : ℕ → ℕ → ℕ → Bool
within p n q = leb p q && ltb q (p + n)
