-- ===== src/Vm/Heap/Release.antt =====
-- `clean_up` of a heap.
use yat_sen_os.Prelude.{ℕ, suc, ◌-◌, ◌≡◌, sym, subst, inl, inr, true, arith, ◌==◌, Bool-cases}
use yat_sen_os.X86.{X86, containing_address}
use yat_sen_os.Elf.{Space, unmap_range, unmap_loop}
use yat_sen_os.Elf.Unmapped.{Cleared, unmap_loop-Cleared}
use yat_sen_os.Vm.Heap.{Heap, heap_start, empty, memory_usage, clean_up}
use yat_sen_os.Vm.Heap.Valid.{IsValid, first_page, top, heap_to, eq-heap_to}

module _ (x : X86) (e : ℕ) (s : Space x) where
  clean_up_at :
      IsValid x (heap_to e) s
      → (s' : Space x) × (clean_up x (heap_to e) s ≡ (true, heap_to heap_start, s'))
        × Cleared x first_page (top e - first_page) s s'
  unfolding clean_up unmap_range memory_usage
  clean_up_at v = elim (Bool-cases (e == heap_start)) [
    | inl unused ↦ (s, ground (arith, v.lower), λ q. ground arith)
    | inr in_use ↦
        let n : ℕ = suc (containing_address e) - first_page in
        let same : n ≡ top e - first_page = ground (arith, in_use) in
        let (done, cleared) =
          unmap_loop-Cleared x first_page n true s (λ q i. v.used q (rw (← same) i)) in
        (
          (unmap_loop x first_page n true s).1,
          ground (arith, done, v.lower, v.upper, in_use),
          λ q. rw (← same) (cleared q),
        )
  ]

-- Cleaning up a valid heap succeeds, unmaps the heap's pages and no other, and sets the end back to
-- the start.
pub clean_up-Cleared :
    (x : X86) (h : Heap) (s : Space x)
    → IsValid x h s
    → (s' : Space x) × (clean_up x h s ≡ (true, empty, s'))
      × Cleared x first_page (top h.end - first_page) s s'
unfolding empty
clean_up-Cleared x h s v =
    let e : h ≡ heap_to h.end = eq-heap_to h v.based in
    subst
      (λ g.
        (s' : Space x) × (clean_up x g s ≡ (true, heap_to heap_start, s'))
        × Cleared x first_page (top h.end - first_page) s s')
      (sym e) (clean_up_at x h.end s (subst (λ g. IsValid x g s) e v))
