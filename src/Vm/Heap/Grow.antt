-- ===== src/Vm/Heap/Grow.antt =====
-- `brk` above the current end.
use yat_sen_os.Prelude.{
  ◌+◌, ℕ, ◌-◌, ◌/◌, ◌^◌, ◌≤◌, ◌<◌, ◌≡◌, refl, sym, subst, ◌∙◌, inl, inr, ◌⊎◌, Bool, true, false,
  some, none, not, ◌==◌, ok, arith, Result, okay, error, Bool-cases, lt→ltb,
}
use yat_sen_os.X86.{X86, MapToError, page_size, start_address, containing_address}
use yat_sen_os.Elf.{Space, PageRange, map_range, range_flags, within}
use yat_sen_os.Elf.Mapped.{at_page, Fresh, map_range_lem}
use yat_sen_os.Vm.Heap.{Heap, Brk, heap_end, kernel_pid, grown, move_end, brk}
use yat_sen_os.Vm.Heap.Valid.{IsValid, top, heap_to, eq-heap_to, top_mono, top-le}

module _ (x : X86) where
  -- What a call of `brk` that raises the end from `e` may leave: it fails and keeps the end, or it
  -- moves the end, and the pages that this adds were free and are mapped.
  abbrev pub Grown : Bool → ℕ → ℕ → Space x → Brk x → Type 0
  Grown user e new_end s b =
      ((q : ℕ)
        → within (top e) (top new_end - top e) q ≡ false
        → at_page x q b.space ≡ at_page x q s)
      × (((b.answer ≡ none) × (b.heap ≡ heap_to e))
          ⊎ ((b.answer ≡ some new_end)
              × (b.heap ≡ heap_to new_end)
              × IsValid x (heap_to new_end) b.space
              × ((q : ℕ)
                  → within (top e) (top new_end - top e) q ≡ true
                  → Fresh x (range_flags user) (at_page x q s) (at_page x q b.space))))

  module _ (pid new_end e : ℕ) (s : Space x) where
    user : Bool
    user = not (pid == kernel_pid)

    new_pages : ℕ
    new_pages = (start_address (top new_end) - start_address (top e)) / page_size

    new_pages_lem : new_pages ≡ top new_end - top e
    unfolding new_pages
    new_pages_lem = let a : ℕ = top new_end in let b : ℕ = top e in omega arith

    move_end-grown :
        (out : Result PageRange MapToError × Space x)
        → e < new_end
        → map_range x (start_address (top e)) (top new_end - top e) user s ≡ ok out
        → move_end x pid (heap_to e) new_end s ≡ ok (grown x (heap_to e) new_end out)
    unfolding move_end user
    move_end-grown out lt h =
        let mapped : map_range x (start_address (top e)) new_pages (not (pid == kernel_pid)) s
            ≡ ok out =
          rw new_pages_lem h in
        unfold new_pages in rw (lt→ltb e new_end lt, mapped)

    -- A valid heap that has grown is valid.
    extended-IsValid :
        (s' : Space x)
        → IsValid x (heap_to e) s
        → e < new_end
        → new_end ≤ heap_end
        → ((q : ℕ)
            → within (top e) (top new_end - top e) q ≡ false
            → at_page x q s' ≡ at_page x q s)
        → ((q : ℕ)
            → within (top e) (top new_end - top e) q ≡ true
            → Fresh x (range_flags user) (at_page x q s) (at_page x q s'))
        → IsValid x (heap_to new_end) s'
    extended-IsValid s' v lt up outside inside =
        let mono = top_mono e new_end v.lower (omega arith) in
        record {
          based = refl;
          lower = omega (arith, v.lower);
          upper = up;
          used = λ q i. elim (Bool-cases (within (top e) (top new_end - top e) q)) [
            | inl new ↦ rw (inside q new).2
            | inr old ↦ rw (outside q old) (v.used q (ground (arith, mono)))
          ];
          free = λ q above below.
              outside q (ground (arith, mono)) ∙ v.free q (omega (arith, mono)) below;
        }

    grown-Grown :
        (out : Result PageRange MapToError × Space x)
        → IsValid x (heap_to e) s
        → e < new_end
        → new_end ≤ heap_end
        → ((q : ℕ)
            → within (top e) (top new_end - top e) q ≡ false
            → at_page x q out.1 ≡ at_page x q s)
        → ((range : PageRange)
            → out.0 ≡ okay range
            → (q : ℕ) → within (top e) (top new_end - top e) q ≡ true
            → Fresh x (range_flags user) (at_page x q s) (at_page x q out.1))
        → Grown user e new_end s (grown x (heap_to e) new_end out)
    grown-Grown (okay range, s') v lt up outside inside = (
      outside,
      inr (refl, refl, extended-IsValid s' v lt up outside (inside range refl), inside range refl),
    )
    grown-Grown (error err, s') v lt up outside inside = (outside, inl (refl, refl))

    brk_at :
        IsValid x (heap_to e) s
        → e < new_end
        → new_end ≤ heap_end
        → (b : Brk x) × (brk x pid (some new_end) (heap_to e) s ≡ ok b)
          × Grown (not (pid == kernel_pid)) e new_end s b
    unfolding brk user
    brk_at v lt up =
        let n : ℕ = top new_end - top e in
        let same : containing_address (start_address (top e)) ≡ top e =
          let t : ℕ = top e in omega arith in
        let bound = top-le e v.lower v.upper in
        let bound' = top-le new_end (omega (arith, v.lower)) up in
        let low : containing_address (start_address (top e)) + n < 2 ^ 35 =
          let t : ℕ = top e in let t' : ℕ = top new_end in omega arith in
        let (out, e1, outside, inside) =
          map_range_lem x (start_address (top e)) (top new_end - top e) user s low in
        (
          grown x (heap_to e) new_end out,
          ground (arith, move_end-grown out lt e1, v.lower),
          grown-Grown out v lt up
              (λ q h. outside q (subst (λ t. within t n q ≡ false) (sym same) h))
              (λ r h q i. (inside r h).2 q (subst (λ t. within t n q ≡ true) (sym same) i)),
        )

-- A call of `brk` that raises the end of a valid heap returns. Outside of the pages that the new end
-- adds no page changes. Either the call answers `None` and keeps the end, or it answers the new end
-- and moves to it; then the added pages were free, are mapped writable, and open to the user unless
-- the caller is the kernel, and the heap is valid again.
pub brk-grow :
    (x : X86) (pid new_end : ℕ) (h : Heap) (s : Space x)
    → IsValid x h s
    → h.end < new_end
    → new_end ≤ heap_end
    → (b : Brk x) × (brk x pid (some new_end) h s ≡ ok b)
      × Grown x (not (pid == kernel_pid)) h.end new_end s b
brk-grow x pid new_end h s v lt up =
    let e : h ≡ heap_to h.end = eq-heap_to h v.based in
    subst
      (λ g.
        (b : Brk x) × (brk x pid (some new_end) g s ≡ ok b)
        × Grown x (not (pid == kernel_pid)) h.end new_end s b)
      (sym e) (brk_at x pid new_end h.end s (subst (λ g. IsValid x g s) e v) lt up)
