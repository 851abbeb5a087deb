-- ===== src/Elf/Roundtrip.antt =====
-- `unmap_range` and `unmap_pages` on what `map_range` has mapped.
use yat_sen_os.Prelude.{
  ℕ, ◌+◌, ◌-◌, ◌*◌, ◌%◌, suc, ltb, refl, ◌<◌, ◌^◌, ◌≡◌, Bool, true, false, none, inl, inr, arith,
  ok, okay, ap, Bool-cases, sym,
}
use yat_sen_os.X86.{X86, containing_address, start_address, page_size}
use yat_sen_os.Elf.{
  Space, PageRange, PageRangeInclusive, inclusive_count, map_range, unmap_range, unmap_pages,
  unmap_loop, within, sub_page,
}
use yat_sen_os.Elf.Mapped.{at_page, map_range_lem, add_page-low}
use yat_sen_os.Elf.Unmapped.{AllMapped, Cleared, unmap_loop-Cleared, unmap_loop-stops}

-- Where every page of the range is mapped, `unmap_range` succeeds, and it unmaps these pages and no
-- other.
pub unmap_range-Cleared :
    (x : X86) (range : PageRangeInclusive) (dealloc : Bool) (s : Space x)
    → AllMapped x range.start (inclusive_count range) s
    → ((unmap_range x range dealloc s).0 ≡ true)
      × Cleared x range.start (inclusive_count range) s (unmap_range x range dealloc s).1
unfolding unmap_range
unmap_range-Cleared x range dealloc s all =
    unmap_loop-Cleared x range.start (inclusive_count range) dealloc s all

-- Where a page of the range is not mapped and those before it are, `unmap_range` fails, and it has
-- unmapped the pages before that one and no other.
pub unmap_range-stops :
    (x : X86) (range : PageRangeInclusive) (i : ℕ) (dealloc : Bool) (s : Space x)
    → i < inclusive_count range
    → AllMapped x range.start i s
    → at_page x (range.start + i) s ≡ none
    → ((unmap_range x range dealloc s).0 ≡ false)
      × Cleared x range.start i s (unmap_range x range dealloc s).1
unfolding unmap_range
unmap_range-stops x range i dealloc s lt all hole =
    unmap_loop-stops x range.start i (inclusive_count range) dealloc s lt all hole

pub unmap_pages-loop :
    (x : X86) (addr count : ℕ) (dealloc : Bool) (s : Space x)
    → containing_address addr + count < 2 ^ 35
    → 0 < count
    → unmap_pages x addr count dealloc s
      ≡ ok (unmap_loop x (containing_address addr) count dealloc s)
unfolding unmap_pages unmap_range sub_page
unmap_pages-loop x addr count dealloc s low some' =
    let p : ℕ = containing_address addr in
    let last : ℕ = start_address (p + count) - 1 * page_size % 2 ^ 64 in
    let fits : ltb (start_address (p + count)) (1 * page_size % 2 ^ 64) ≡ false = ground arith in
    let all : suc (containing_address last) - p ≡ count = omega arith in
    rw
      (
        x.virt_addr-low addr (omega arith),
        add_page-low x p count low,
        fits,
        x.virt_addr-low last (omega arith),
        all,
      )
      refl

-- What `map_range` has mapped, at least one page and all of them before the last page of the lower
-- half, `unmap_pages` unmaps with success: every page is translated as it was before the two calls.
pub map_range-unmap_pages :
    (x : X86) (addr count : ℕ) (user_access dealloc : Bool) (range : PageRange) (s s1 : Space x)
    → containing_address addr + count < 2 ^ 35
    → 0 < count
    → map_range x addr count user_access s ≡ ok (okay range, s1)
    → (s2 : Space x) × (unmap_pages x addr count dealloc s1 ≡ ok (true, s2))
      × ((q : ℕ) → at_page x q s2 ≡ at_page x q s)
map_range-unmap_pages x addr count user_access dealloc range s s1 low some' e =
    let p : ℕ = containing_address addr in
    let (out, e', outside, inside) = map_range_lem x addr count user_access s low in
    let same : out ≡ (okay range, s1) = cc in
    let there = λ (q : ℕ). ap (λ o. at_page x q o.1) same in
    let good : out.0 ≡ okay range = ap (λ o. o.0) same in
    let all : AllMapped x p count s1 =
      λ q i. rw (sym (there q)) (rw ((inside range good).2 q i).2) in
    let (done, cleared) = unmap_loop-Cleared x p count dealloc s1 all in
    (
      (unmap_loop x p count dealloc s1).1,
      ground (arith, unmap_pages-loop x addr count dealloc s1 low some', done),
      λ q. elim (Bool-cases (within p count q)) [
        | inl i ↦ ground (arith, cleared q, ((inside range good).2 q i).0)
        | inr o ↦ ground (arith, cleared q, there q, outside q o)
      ],
    )
