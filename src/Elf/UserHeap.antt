-- ===== src/Elf/UserHeap.antt =====
-- `init_user_heap` of src/0x01/pkg/kernel/src/memory/user.rs. The allocator that it hands the range to
-- is a library's.
use yat_sen_os.Prelude.{ℕ, ◌*◌, ◌/◌, ◌≡◌, refl, ◌>>=◌, Outcome, ok, okay, true, false, arith}
use yat_sen_os.X86.{X86, page_size, containing_address}
use yat_sen_os.Elf.{Space, user_map_range, user_heap_flags, map_pages, within}
use yat_sen_os.Elf.Mapped.{add_page-low, at_page, Fresh, map_pages-inside, map_pages-outside}

abbrev pub user_heap_start : ℕ
user_heap_start = 0x4000_0000_0000

abbrev pub user_heap_size : ℕ
user_heap_size = 1024 * 1024

abbrev pub user_heap_page : ℕ
user_heap_page = user_heap_size / page_size

module _ (x : X86) where
  -- What `user_map_range` answers is dropped.
  unfoldable pub init_user_heap : Space x → Outcome (Space x)
  unfolding user_map_range
  init_user_heap s = do
    start ← x.virt_addr user_heap_start
    (answer, s') ← user_map_range x user_heap_start user_heap_page s
    ok s'

  -- It returns, whether all pages could be mapped or not: no page outside of the heap changes, and
  -- where they could, every page of the heap was free and is mapped now, open to the user.
  init_user_heap-maps :
      (s : Space x)
      → (s' : Space x) × (init_user_heap s ≡ ok s')
        × ((q : ℕ)
            → within (containing_address user_heap_start) 256 q ≡ false
            → at_page x q s' ≡ at_page x q s)
        × ((map_pages x (containing_address user_heap_start) 256 user_heap_flags s).0 ≡ okay tt
            → (q : ℕ) → within (containing_address user_heap_start) 256 q ≡ true
            → Fresh x user_heap_flags (at_page x q s) (at_page x q s'))
  unfolding init_user_heap
  init_user_heap-maps s =
      let p : ℕ = containing_address user_heap_start in
      (
        (map_pages x p 256 user_heap_flags s).1,
        rw (x.virt_addr-low user_heap_start (omega arith), add_page-low x p 256 (omega arith)) refl,
        λ q. map_pages-outside x p 256 q user_heap_flags s,
        λ h q. map_pages-inside x p 256 q user_heap_flags s h,
      )
