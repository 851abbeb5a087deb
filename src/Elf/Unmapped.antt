-- ===== src/Elf/Unmapped.antt =====
-- What `unmap_range` leaves in the page table.
use yat_sen_os.Prelude.{
  ℕ, zero, suc, ◌+◌, ◌<◌, ◌≡◌, refl, sym, subst, inl, inr, Bool, true, false, none, some, arith,
  ◌==◌, if◌then◌else◌, is_some, Option-cases,
}
use yat_sen_os.X86.{X86, Mapping}
use yat_sen_os.Elf.{Space, freed, unmap_loop, within}
use yat_sen_os.Elf.Mapped.{at_page}

module _ (x : X86) where
  abbrev pub AllMapped : ℕ → ℕ → Space x → Type 0
  AllMapped p n s = (q : ℕ) → within p n q ≡ true → is_some (at_page x q s) ≡ true

  -- The table without the `n` pages from `p`.
  abbrev pub Cleared : ℕ → ℕ → Space x → Space x → Type 0
  Cleared p n s s' = (q : ℕ) → at_page x q s' ≡ (if within p n q then none else at_page x q s)

  mapped_first :
      (p n : ℕ) (s : Space x) → AllMapped p (suc n) s → (m : Mapping) × (at_page x p s ≡ some m)
  mapped_first p n s all = elim (Option-cases (at_page x p s)) [
    | inl e ↦ absurd (ground (arith, all p))
    | inr found ↦ found
  ]

  -- One round at a mapped page.
  module _ (p n : ℕ) (dealloc : Bool) (s : Space x) (m : Mapping)
      (here : at_page x p s ≡ some m) where
    after_page : Space x
    after_page = freed x dealloc m.frame (x.unmap p s.table).1 s

    unmap_loop-suc : unmap_loop x p (suc n) dealloc s ≡ unmap_loop x (suc p) n dealloc after_page
    unfolding unmap_loop after_page
    unmap_loop-suc = rw ((x.unmap-mapped p p m s.table here).0, unmap_loop)

    after_page-at : (q : ℕ) → at_page x q after_page ≡ (if p == q then none else at_page x q s)
    unfolding after_page
    after_page-at q = (x.unmap-mapped p q m s.table here).1

    after_page-AllMapped : (i : ℕ) → AllMapped p (suc i) s → AllMapped (suc p) i after_page
    after_page-AllMapped i all q inside = ground (arith, after_page-at q, all q)

    Cleared-suc : (i : ℕ) (s' : Space x) → Cleared (suc p) i after_page s' → Cleared p (suc i) s s'
    Cleared-suc i s' rest q = ground (arith, rest q, after_page-at q)

  -- Where the whole range is mapped, the loop succeeds and clears it.
  pub unmap_loop-Cleared :
      (p n : ℕ) (dealloc : Bool) (s : Space x)
      → AllMapped p n s
      → ((unmap_loop x p n dealloc s).0 ≡ true) × Cleared p n s (unmap_loop x p n dealloc s).1
  unfolding unmap_loop
  unmap_loop-Cleared p zero dealloc s all = (refl, λ q. ground arith)
  unmap_loop-Cleared p (suc n) dealloc s all =
      let (m, e) = mapped_first p n s all in
      let s1 : Space x = after_page p n dealloc s m e in
      let step = after_page-AllMapped p n dealloc s m e n all in
      let (done, rest) = unmap_loop-Cleared (suc p) n dealloc s1 step in
      subst (λ r. (r.0 ≡ true) × Cleared p (suc n) s r.1) (sym (unmap_loop-suc p n dealloc s m e))
        (done, Cleared-suc p n dealloc s m e n (unmap_loop x (suc p) n dealloc s1).1 rest)

  -- Where it is mapped up to a hole, the loop fails there, having cleared the pages before it.
  pub unmap_loop-stops :
      (p i n : ℕ) (dealloc : Bool) (s : Space x)
      → i < n
      → AllMapped p i s
      → at_page x (p + i) s ≡ none
      → ((unmap_loop x p n dealloc s).0 ≡ false) × Cleared p i s (unmap_loop x p n dealloc s).1
  unfolding unmap_loop
  unmap_loop-stops p i zero dealloc s lt all hole = absurd (omega arith)
  unmap_loop-stops p zero (suc n) dealloc s lt all hole =
      let gone : x.unmap p s.table ≡ (none, s.table) =
        x.unmap-missing p s.table (subst (λ r. at_page x r s ≡ none) (omega arith) hole) in
      rw (gone, unmap_loop) (refl, λ q. ground arith)
  unmap_loop-stops p (suc i) (suc n) dealloc s lt all hole =
      let (m, e) = mapped_first p i s all in
      let s1 : Space x = after_page p n dealloc s m e in
      let step = after_page-AllMapped p n dealloc s m e i all in
      let hole' : at_page x (suc p + i) s1 ≡ none =
        ground (arith, after_page-at p n dealloc s m e (suc p + i), hole) in
      let (done, rest) = unmap_loop-stops (suc p) i n dealloc s1 (omega arith) step hole' in
      subst (λ r. (r.0 ≡ false) × Cleared p (suc i) s r.1) (sym (unmap_loop-suc p n dealloc s m e))
        (done, Cleared-suc p n dealloc s m e i (unmap_loop x (suc p) n dealloc s1).1 rest)
