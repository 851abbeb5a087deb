-- ===== src/Vm/Heap.antt =====
-- `Heap` of src/0x01/pkg/kernel/src/proc/vm/heap.rs. The end is an atomic that forks share: a call
-- takes the value that it loads and returns the value that it leaves.
pub mod Grow
pub mod Shrink
pub mod Release
pub mod Answer
pub mod Valid
use yat_sen_os.Prelude.{
  ℕ, zero, suc, ◌+◌, ◌-◌, ◌*◌, ◌/◌, ◌%◌, ◌^◌, ◌≤◌, ◌≡◌, Bool, true, false, Option, none, some, ◌==◌,
  ltb, not, ◌||◌, if◌then◌else◌, Outcome, ok, panic, ◌>>=◌, Result, okay, error,
}
use yat_sen_os.X86.{X86, MapToError, page_size, containing_address, start_address}
use yat_sen_os.Elf.{Space, PageRange, PageRangeInclusive, map_range, unmap_range}

abbrev pub heap_start : ℕ
heap_start = 0x2000_0000_0000

abbrev pub heap_pages : ℕ
heap_pages = 0x100000

abbrev pub heap_size : ℕ
heap_size = heap_pages * page_size

abbrev pub heap_end : ℕ
heap_end = heap_start + heap_size - 8

abbrev pub kernel_pid : ℕ
kernel_pid = 1

-- `base` is `HEAP_START` from `empty` on.
pub record Heap : Type 0 where
  pub base : ℕ
  pub end : ℕ

unfoldable pub empty : Heap
empty = record { base = heap_start; end = heap_start }

-- The page after the one that holds `addr`, but the base page for the base.
abbrev pub page_above : ℕ → ℕ → ℕ
page_above base addr = if addr == base then containing_address addr else containing_address addr + 1

module _ (x : X86) where
  -- What `brk` answers, the heap and the memory that it leaves.
  pub record Brk : Type 0 where
    pub answer : Option ℕ
    pub heap : Heap
    pub space : Space x

  abbrev pub moved : Heap → ℕ → Space x → Brk
  moved h new_end s = record { answer = some new_end; heap = record h { end = new_end }; space = s }

  abbrev pub refused : Heap → Space x → Brk
  refused h s = record { answer = none; heap = h; space = s }

  abbrev pub grown : Heap → ℕ → Result PageRange MapToError × Space x → Brk
  grown h new_end (okay range, s) = moved h new_end s
  grown h new_end (error e, s) = refused h s

  abbrev pub shrunk : Heap → ℕ → Bool × Space x → Brk
  shrunk h new_end (true, s) = moved h new_end s
  shrunk h new_end (false, s) = refused h s

  -- The part of `brk` after the check of the range; `pid` is the current process.
  unfoldable pub move_end : ℕ → Heap → ℕ → Space x → Outcome Brk
  move_end pid h new_end s =
      let new_end_page = page_above h.base new_end in
      let current_end_page = page_above h.base h.end in
      let user_access = not (pid == kernel_pid) in
      let addr = start_address current_end_page in
      let count = (start_address new_end_page - addr) / page_size in
      let grow = map_range x addr count user_access s in
      let range : PageRangeInclusive = record { start = new_end_page; stop = current_end_page } in
      let shrink = unmap_range x range user_access s in
      if ltb h.end new_end
      then (do out ← grow; ok (grown h new_end out))
      else ok (if ltb new_end h.end then shrunk h new_end shrink else moved h new_end s)

  unfoldable pub brk : ℕ → Option ℕ → Heap → Space x → Outcome Brk
  unfolding move_end
  brk pid none h s = ok (record { answer = some h.end; heap = h; space = s })
  brk pid (some new_end) h s =
      if ltb new_end heap_start || ltb heap_end new_end
      then ok (refused h s)
      else move_end pid h new_end s

  unfoldable pub memory_usage : Heap → ℕ
  memory_usage h = (h.end + 2 ^ 64 - h.base) % 2 ^ 64

  unfoldable pub clean_up : Heap → Space x → Bool × Heap × Space x
  unfolding memory_usage
  clean_up h s =
      let range : PageRangeInclusive = record {
        start = containing_address heap_start;
        stop = containing_address h.end;
      } in
      let (done, s') = unmap_range x range true s in
      if memory_usage h == 0 then (true, h, s) else (done, record h { end = heap_start }, s')
