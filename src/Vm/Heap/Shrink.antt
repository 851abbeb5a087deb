-- ===== src/Vm/Heap/Shrink.antt =====
-- `brk` below the current end. The range that it unmaps ends one page above the pages that are
-- mapped, so the call stops at that page and keeps the old end.
use yat_sen_os.Prelude.{
  ℕ, suc, ◌-◌, ◌≤◌, ◌<◌, ◌≡◌, sym, subst, Bool, false, some, not, ◌==◌, ok, arith,
}
use yat_sen_os.X86.{X86}
use yat_sen_os.Elf.{Space, unmap_range, unmap_loop}
use yat_sen_os.Elf.Unmapped.{Cleared, unmap_loop-stops}
use yat_sen_os.Vm.Heap.{Heap, heap_start, kernel_pid, refused, shrunk, move_end, brk}
use yat_sen_os.Vm.Heap.Valid.{IsValid, top, heap_to, eq-heap_to, top_mono, top-le, first-le-top}

module _ (x : X86) (pid new_end : ℕ) (s : Space x) where
  user : Bool
  user = not (pid == kernel_pid)

  -- What the call does to the page table.
  unmapped : ℕ → Bool × Space x
  unmapped e = unmap_loop x (top new_end) (suc (top e) - top new_end) user s

  move_end-shrunk :
      (e : ℕ)
      → new_end < e
      → move_end x pid (heap_to e) new_end s ≡ ok (shrunk x (heap_to e) new_end (unmapped e))
  unfolding move_end unmapped user unmap_range
  move_end-shrunk e lt = ground arith

  unmapped-stops :
      (e : ℕ)
      → IsValid x (heap_to e) s
      → heap_start ≤ new_end
      → new_end < e
      → ((unmapped e).0 ≡ false) × Cleared x (top new_end) (top e - top new_end) s (unmapped e).1
  unfolding unmapped
  unmapped-stops e v low lt =
      let up = top_mono new_end e low (omega arith) in
      unmap_loop-stops x (top new_end) (top e - top new_end) (suc (top e) - top new_end) user s
        (omega (arith, up)) (λ q i. v.used q (ground (arith, first-le-top new_end low, up)))
        (v.free _ (omega (arith, up)) (omega (arith, up, top-le e (omega arith) v.upper)))

  brk_at :
      (e : ℕ)
      → IsValid x (heap_to e) s
      → heap_start ≤ new_end
      → new_end < e
      → (s' : Space x) × (brk x pid (some new_end) (heap_to e) s ≡ ok (refused x (heap_to e) s'))
        × Cleared x (top new_end) (top e - top new_end) s s'
  unfolding brk
  brk_at e v low lt =
      let stops = unmapped-stops e v low lt in
      ((unmapped e).1, ground (arith, move_end-shrunk e lt, stops.0, v.upper), stops.1)

-- A call of `brk` that lowers the end of a valid heap answers `None` and keeps the end, though the
-- pages above the new end are unmapped by then.
pub brk-shrink :
    (x : X86) (pid new_end : ℕ) (h : Heap) (s : Space x)
    → IsValid x h s
    → heap_start ≤ new_end
    → new_end < h.end
    → (s' : Space x) × (brk x pid (some new_end) h s ≡ ok (refused x h s'))
      × Cleared x (top new_end) (top h.end - top new_end) s s'
brk-shrink x pid new_end h s v low lt =
    let e : h ≡ heap_to h.end = eq-heap_to h v.based in
    subst
      (λ g.
        (s' : Space x) × (brk x pid (some new_end) g s ≡ ok (refused x g s'))
        × Cleared x (top new_end) (top h.end - top new_end) s s')
      (sym e) (brk_at x pid new_end s h.end (subst (λ g. IsValid x g s) e v) low lt)
