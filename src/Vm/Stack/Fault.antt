-- ===== src/Vm/Stack/Fault.antt =====
-- A page fault under the stack.
use yat_sen_os.Prelude.{
  ℕ, ◌-◌, ◌^◌, ◌≤◌, ◌<◌, ◌≡◌, refl, sym, subst, ◌∙◌, inl, inr, ◌⊎◌, Bool, true, false, ok, arith,
  Result, okay, error, Bool-cases, panic,
}
use yat_sen_os.X86.{X86, MapToError, start_address, containing_address}
use yat_sen_os.Elf.{Space, PageRange, map_range, range_flags, within}
use yat_sen_os.Elf.Mapped.{at_page, Fresh, map_range_lem}
use yat_sen_os.Elf.Unmapped.{AllMapped}
use yat_sen_os.Vm.Stack.{
  Stack, is_on_stack, extended, grow_stack, checked_sub, handle_page_fault, start_mask,
}

-- A stack owns the pages of its range, all of them mapped, and counts them.
pub record IsValid (x : X86) (st : Stack) (s : Space x) : Type 0 where
  pub ordered : st.range.start ≤ st.range.stop
  pub counted : st.usage ≡ st.range.stop - st.range.start
  pub owned : AllMapped x st.range.start st.usage s

module _ (x : X86) where
  -- What a fault at a page below the stack leaves: it fails and the stack is as it was, or the stack
  -- begins at that page, by pages that were free before.
  abbrev pub Reaches : ℕ → Stack → Space x → Bool × Stack × Space x → Type 0
  Reaches page st s (b, st', s') =
      ((q : ℕ) → within page (st.range.start - page) q ≡ false → at_page x q s' ≡ at_page x q s)
      × (((b ≡ false) × (st' ≡ st))
          ⊎ ((b ≡ true)
              × (st'.range.start ≡ page)
              × (st'.range.stop ≡ st.range.stop)
              × IsValid x st' s'
              × ((q : ℕ)
                  → within page (st.range.start - page) q ≡ true
                  → Fresh x (range_flags true) (at_page x q s) (at_page x q s'))))

  module _ (page : ℕ) (st : Stack) (s : Space x) where
    extended-Reaches :
        (out : Result PageRange MapToError × Space x)
        → IsValid x st s
        → page ≤ st.range.start
        → ((q : ℕ)
            → within page (st.range.start - page) q ≡ false
            → at_page x q out.1 ≡ at_page x q s)
        → ((range : PageRange)
            → out.0 ≡ okay range
            → (range.start ≡ page)
              × ((q : ℕ)
                  → within page (st.range.start - page) q ≡ true
                  → Fresh x (range_flags true) (at_page x q s) (at_page x q out.1)))
        → Reaches page st s (extended x st (st.range.start - page) out)
    extended-Reaches (error e, s') v low outside inside = (outside, inl (refl, refl))
    extended-Reaches (okay range, s') v low outside inside =
        let (start, fresh) = inside range refl in
        (
          outside,
          inr (
            refl,
            start,
            refl,
            record {
              ordered = omega (arith, v.ordered);
              counted = omega (arith, v.counted, v.ordered);
              owned = λ q i. elim (Bool-cases (within page (st.range.start - page) q)) [
                | inl new ↦ rw (fresh q new).2
                | inr old ↦ rw (outside q old) (v.owned q (ground arith))
              ];
            },
            fresh,
          ),
        )

checked_sub-ok : (a b : ℕ) → b ≤ a → checked_sub a b ≡ ok (a - b)
checked_sub-ok a b h = ground arith

grow_stack-extended :
    (x : X86) (addr : ℕ) (st : Stack) (s : Space x) (out : Result PageRange MapToError × Space x)
    → containing_address addr ≤ st.range.start
    → map_range x
        (start_address (containing_address addr))
        (st.range.start - containing_address addr)
        true
        s
      ≡ ok out
    → grow_stack x addr st s ≡ ok (extended x st (st.range.start - containing_address addr) out)
unfolding grow_stack
grow_stack-extended x addr st s out below e =
    rw (checked_sub-ok st.range.start (containing_address addr) below, e)

-- The stack of a fault in the lower half begins in it.
on_stack-low :
    (addr : ℕ) (st : Stack) → is_on_stack addr st ≡ true → addr < 2 ^ 47 → st.range.start < 2 ^ 35
unfolding is_on_stack
on_stack-low addr st on low =
    let start : ℕ = st.range.start in
    let same : start_mask addr ≡ start_mask (start_address start) = ground (arith, on) in
    omega arith

-- A fault in the 4 GiB of a valid stack, at the stack's first page or below it, returns. No page
-- outside of the gap changes, and either the call answers `false` and keeps the stack, or it answers
-- `true` and the stack, valid again, begins at the page of the fault; then the pages of the gap were
-- free and are mapped writable and open to the user.
pub handle_page_fault-Reaches :
    (x : X86) (addr : ℕ) (st : Stack) (s : Space x)
    → IsValid x st s
    → is_on_stack addr st ≡ true
    → containing_address addr ≤ st.range.start
    → addr < 2 ^ 47
    → (out : Bool × Stack × Space x) × (handle_page_fault x addr st s ≡ ok out)
      × Reaches x (containing_address addr) st s out
unfolding handle_page_fault
handle_page_fault-Reaches x addr st s v on below low =
    let page : ℕ = containing_address addr in
    let n : ℕ = st.range.start - page in
    let same : containing_address (start_address page) ≡ page = omega arith in
    let near = on_stack-low addr st on low in
    let (out, e, outside, inside) = map_range_lem x (start_address page) n true s (omega arith) in
    (
      extended x st n out,
      rw on (grow_stack-extended x addr st s out below e),
      extended-Reaches x page st s out v below
          (λ q h. outside q (subst (λ t. within t n q ≡ false) (sym same) h))
          (λ r h. (
            (inside r h).0 ∙ same,
            λ q i. (inside r h).2 q (subst (λ t. within t n q ≡ true) (sym same) i),
          )),
    )

-- A fault in the 4 GiB of the stack, but above its first page, panics: `PageRange` holds the pages
-- from its start on.
pub handle_page_fault-panic :
    (x : X86) (addr : ℕ) (st : Stack) (s : Space x)
    → is_on_stack addr st ≡ true
    → st.range.start < containing_address addr
    → handle_page_fault x addr st s ≡ panic
unfolding handle_page_fault grow_stack
handle_page_fault-panic x addr st s on above = rw on (ground arith)
