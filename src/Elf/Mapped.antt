-- ===== src/Elf/Mapped.antt =====
-- What `map_range` leaves in the page table.
use yat_sen_os.Prelude.{
  ℕ, sym, subst, ◌<◌, ◌^◌, Bool-cases, zero, suc, ◌+◌, ◌≡◌, refl, inl, inr, ◌∙◌, Bool, true, false,
  Option, none, some, arith, ◌==◌, if◌then◌else◌, Option-cases, Result, okay, error, Result-cases,
  ok, panic, ◌-◌, ◌*◌, ◌%◌, ◌≤◌, ltb, lt→ltb, ap,
}
use yat_sen_os.Memory.Frames.{allocate_frame}
use yat_sen_os.X86.{
  X86, PageTableFlags, MapToError, Mapping, containing_address, start_address, page_size,
}
use yat_sen_os.Elf.{
  Space, enter, map_page, map_pages, within, map_range, add_page, PageRange, range_flags,
  with_range,
}

module _ (x : X86) where
  abbrev pub at_page : ℕ → Space x → Option Mapping
  at_page q s = x.translate q s.table

  -- The page was free before, and is the only one that changed.
  abbrev pub Entered : ℕ → PageTableFlags → Space x → Space x → Type 0
  Entered p flags s s' =
      (f : ℕ) × (at_page p s ≡ none)
      × ((q : ℕ)
          → at_page q s'
            ≡ (if p == q then some (record { frame = f; flags = flags }) else at_page q s))

  enter-okay :
      (p f : ℕ) (flags : PageTableFlags) (s : Space x)
      → (enter x p f flags s).0 ≡ okay tt
      → Entered p flags s (enter x p f flags s).1
  unfolding enter
  enter-okay p f flags s h =
      let m : Mapping = record { frame = f; flags = flags } in
      elim (Option-cases (at_page p s)) [
        | inl free ↦ (f, free, λ q. ground (arith, x.map_to-mapped p q m s.table s.allocator))
        | inr (n, taken) ↦ absurd (ground (arith, x.map_to-taken p m n s.table s.allocator taken))
      ]

  enter-error :
      (p f q : ℕ) (flags : PageTableFlags) (s : Space x) (e : MapToError)
      → (enter x p f flags s).0 ≡ error e
      → at_page q (enter x p f flags s).1 ≡ at_page q s
  unfolding enter
  enter-error p f q flags s e h =
      let m : Mapping = record { frame = f; flags = flags } in
      ground (arith, x.map_to-failed p q m s.table s.allocator e)

  pub map_page-okay :
      (p : ℕ) (flags : PageTableFlags) (s : Space x)
      → (map_page x p flags s).0 ≡ okay tt
      → Entered p flags s (map_page x p flags s).1
  unfolding map_page
  map_page-okay p flags s h = elim (Option-cases (allocate_frame s.allocator).0) [
    | inl e ↦ absurd (ground arith)
    | inr (f, e) ↦ rw (e, map_page) (enter-okay p f flags _ (ground arith))
  ]

  pub map_page-error :
      (p q : ℕ) (flags : PageTableFlags) (s : Space x) (e : MapToError)
      → (map_page x p flags s).0 ≡ error e
      → at_page q (map_page x p flags s).1 ≡ at_page q s
  unfolding map_page
  map_page-error p q flags s e h = elim (Option-cases (allocate_frame s.allocator).0) [
    | inl none' ↦ ground arith
    | inr (f, got) ↦ rw (got, map_page) (enter-error p f q flags _ e (ground arith))
  ]

  -- No page outside of the range changes, whether the loop ends or stops half way.
  pub map_pages-outside :
      (p n q : ℕ) (flags : PageTableFlags) (s : Space x)
      → within p n q ≡ false
      → at_page q (map_pages x p n flags s).1 ≡ at_page q s
  unfolding map_pages
  map_pages-outside p zero q flags s out = refl
  map_pages-outside p (suc n) q flags s out = elim (Result-cases (map_page x p flags s).0) [
    | inl (tt', e) ↦
        rw (e, map_pages)
          (map_pages-outside (suc p) n q flags _ (ground arith)
            ∙ (map_page-okay p flags s e).2 q
            ∙ ground arith)
    | inr (e', e) ↦ rw (e, map_pages) (map_page-error p q flags s e' e)
  ]

  -- A page that was free and now stands in the table with the given flags.
  abbrev pub Fresh : PageTableFlags → Option Mapping → Option Mapping → Type 0
  Fresh flags before now =
      (before ≡ none) × (f : ℕ) × (now ≡ some (record { frame = f; flags = flags }))

  pub map_pages-inside :
      (p n q : ℕ) (flags : PageTableFlags) (s : Space x)
      → (map_pages x p n flags s).0 ≡ okay tt
      → within p n q ≡ true
      → Fresh flags (at_page q s) (at_page q (map_pages x p n flags s).1)
  unfolding map_pages
  map_pages-inside p zero q flags s h i = absurd (ground arith)
  map_pages-inside p (suc n) q flags s h i = elim (Result-cases (map_page x p flags s).0) [
    | inl (tt', e) ↦
        let s1 : Space x = (map_page x p flags s).1 in
        let new = map_page-okay p flags s e in
        elim (Bool-cases (p == q)) [
          | inl hit ↦
              rw (e, map_pages)
                (
                  subst (λ r. at_page r s ≡ none) (ground arith) new.1,
                  new.0,
                  map_pages-outside (suc p) n q flags s1 (ground arith) ∙ new.2 q ∙ rw hit,
                )
          | inr miss ↦
              let rest = map_pages-inside (suc p) n q flags s1 (ground arith) (ground arith) in
              rw (e, map_pages) (sym (new.2 q ∙ rw miss) ∙ rest.0, rest.1, rest.2)
        ]
    | inr (e', e) ↦ absurd (ground arith)
  ]

module _ (x : X86) where
  pub add_page-low : (p n : ℕ) → p + n < 2 ^ 35 → add_page x p n ≡ ok (p + n)
  unfolding add_page
  add_page-low p n low =
      let sum : ℕ = start_address p + n * page_size % 2 ^ 64 in
      let fits : ltb sum (2 ^ 64) ≡ true = lt→ltb sum (2 ^ 64) (omega arith) in
      rw (fits, x.virt_addr-low sum (omega arith)) (ap ok (omega arith))

  pub add_page-high : (p n : ℕ) → 2 ^ 35 ≤ p + n → p + n < 2 ^ 51 → add_page x p n ≡ panic
  unfolding add_page
  add_page-high p n high low =
      let sum : ℕ = start_address p + n * page_size % 2 ^ 64 in
      let fits : ltb sum (2 ^ 64) ≡ true = lt→ltb sum (2 ^ 64) (omega arith) in
      rw (fits, x.virt_addr-hole sum (omega arith) (omega arith)) refl

  pub map_range-low :
      (addr count : ℕ) (user_access : Bool) (s : Space x)
      → containing_address addr + count < 2 ^ 35
      → map_range x addr count user_access s
        ≡ ok (
            with_range x
              (record { start = containing_address addr; stop = containing_address addr + count })
              (map_pages x (containing_address addr) count (range_flags user_access) s))
  unfolding map_range
  map_range-low addr count user_access s low =
      let p : ℕ = containing_address addr in
      let all : p + count - p ≡ count = omega arith in
      rw (x.virt_addr-low addr (omega arith), add_page-low p count low, all) refl

  -- Where the page after the last one has no address, `map_range` panics and maps nothing.
  map_range-panics :
      (addr count : ℕ) (user_access : Bool) (s : Space x)
      → addr < 2 ^ 47
      → 2 ^ 35 ≤ containing_address addr + count
      → containing_address addr + count < 2 ^ 51
      → map_range x addr count user_access s ≡ panic
  unfolding map_range
  map_range-panics addr count user_access s low high small =
      rw (x.virt_addr-low addr low, add_page-high (containing_address addr) count high small) refl

-- `map_range` at an address of the lower half, for a range that begins at the address's page and
-- ends before the last page of the lower half. No page outside of the range changes, also where the
-- call fails half way; where the call succeeds it returns the range, and every page of the range was
-- free before and is mapped now, writable, and open to the user as asked.
pub map_range_lem :
    (x : X86) (addr count : ℕ) (user_access : Bool) (s : Space x)
    → containing_address addr + count < 2 ^ 35
    → (out : Result PageRange MapToError × Space x) × (map_range x addr count user_access s
        ≡ ok out)
      × ((q : ℕ)
          → within (containing_address addr) count q ≡ false
          → at_page x q out.1 ≡ at_page x q s)
      × ((range : PageRange)
          → out.0 ≡ okay range
          → (range.start ≡ containing_address addr)
            × (range.stop ≡ containing_address addr + count)
            × ((q : ℕ)
                → within (containing_address addr) count q ≡ true
                → Fresh x (range_flags user_access) (at_page x q s) (at_page x q out.1)))
map_range_lem x addr count user_access s low =
    let p : ℕ = containing_address addr in
    let flags = range_flags user_access in
    (
      with_range x (record { start = p; stop = p + count }) (map_pages x p count flags s),
      map_range-low x addr count user_access s low,
      λ q. map_pages-outside x p count q flags s,
      λ range h.
          (ground arith, ground arith, λ q. map_pages-inside x p count q flags s (ground arith)),
    )

module _ (x : X86) where
  -- A page that is mapped stays mapped as it is, whatever the loop does.
  map_page-keeps :
      (p q : ℕ) (flags : PageTableFlags) (s : Space x) (m : Mapping)
      → at_page x q s ≡ some m
      → at_page x q (map_page x p flags s).1 ≡ some m
  map_page-keeps p q flags s m here = elim (Result-cases (map_page x p flags s).0) [
    | inl (tt', e) ↦
        let new = map_page-okay x p flags s e in
        new.2 q ∙ (elim (Bool-cases (p == q)) [
          | inl hit ↦
              let same : p ≡ q = ground arith in
              let free : at_page x q s ≡ none = subst (λ r. at_page x r s ≡ none) same new.1 in
              cc (sym free ∙ here)
          | inr miss ↦ rw miss here
        ])
    | inr (e', e) ↦ map_page-error x p q flags s e' e ∙ here
  ]

  map_pages-keeps :
      (p n q : ℕ) (flags : PageTableFlags) (s : Space x) (m : Mapping)
      → at_page x q s ≡ some m
      → at_page x q (map_pages x p n flags s).1 ≡ some m
  unfolding map_pages
  map_pages-keeps p zero q flags s m here = here
  map_pages-keeps p (suc n) q flags s m here = elim (Result-cases (map_page x p flags s).0) [
    | inl (tt', e) ↦
        rw (e, map_pages)
          (map_pages-keeps (suc p) n q flags (map_page x p flags s).1 m
            (map_page-keeps p q flags s m here))
    | inr (e', e) ↦ rw (e, map_pages) (map_page-keeps p q flags s m here)
  ]

  pub map_range-keeps :
      (addr count q : ℕ) (user_access : Bool) (s : Space x) (m : Mapping)
      {out : Result PageRange MapToError × Space x}
      → containing_address addr + count < 2 ^ 35
      → map_range x addr count user_access s ≡ ok out
      → at_page x q s ≡ some m
      → at_page x q out.1 ≡ some m
  map_range-keeps addr count q user_access s m low e here =
      let kept =
        map_pages-keeps (containing_address addr) count q (range_flags user_access) s m here in
      let run = map_range-low x addr count user_access s low in cc
