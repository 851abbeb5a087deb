-- ===== src/Vm/Memory/Shared.antt =====
-- Dropping a memory whose page table has other users.
use yat_sen_os.Prelude.{ℕ, ◌-◌, ◌^◌, ◌<◌, ◌≡◌, ◌≢◌, subst, some, true, false, arith, ok, ◌==◌}
use yat_sen_os.BTreeMap.{get, insert, get-insert}
use yat_sen_os.X86.{X86, start_address, containing_address}
use yat_sen_os.Elf.{Space, unmap_loop, unmap_pages}
use yat_sen_os.Elf.Unmapped.{Cleared, unmap_loop-Cleared}
use yat_sen_os.Elf.Roundtrip.{unmap_pages-loop}
use yat_sen_os.Vm.Stack.{Stack}
use yat_sen_os.Vm.Stack
use yat_sen_os.Vm.Stack.Fault
use yat_sen_os.Vm.Paging.{Machine, mapper, write_back, using_count}
use yat_sen_os.Vm.Paging
use yat_sen_os.Vm.Memory.{ProcessVm, clean_up, release}

module _ (x : X86) where
  -- The stack of a memory is unmapped.
  stack_gone :
      (st : Stack) (s : Space x)
      → Fault.IsValid x st s
      → st.range.stop < 2 ^ 35
      → 0 < st.usage
      → (s' : Space x) × (Stack.clean_up x st s ≡ ok (record st { usage = 0 }, s'))
        × Cleared x st.range.start st.usage s s'
  unfolding Stack.clean_up
  stack_gone st s v low used =
      let start : ℕ = st.range.start in
      let same : containing_address (start_address start) ≡ start = omega arith in
      let ordered = v.ordered in
      let counted = v.counted in
      let run = unmap_loop x start st.usage true s in
      let (done, cleared) = unmap_loop-Cleared x start st.usage true s v.owned in
      let e : unmap_pages x (start_address start) st.usage true s ≡ ok run =
        subst
          (λ p.
            unmap_pages x (start_address start) st.usage true s
            ≡ ok (unmap_loop x p st.usage true s))
          same (unmap_pages-loop x (start_address start) st.usage true s (omega arith) used) in
      (run.1, ground (arith, e), cleared)

  release_run :
      (vm : ProcessVm) (m : Machine x) (s s' : Space x) (st : Stack) (e : ℕ)
      → mapper x vm.page_table m ≡ ok s
      → Stack.clean_up x vm.stack s ≡ ok (st, s')
      → get vm.heap m.heap_ends ≡ some e
      → using_count x vm.page_table m ≢ 1
      → release x vm m
        ≡ ok (
            Paging.drop x vm.page_table (record (write_back x vm.page_table s' m) {
              heap_ends = insert vm.heap e m.heap_ends;
            }))
  unfolding release clean_up write_back
  release_run vm m s s' st e e1 e2 e3 shared =
      let other : (using_count x vm.page_table m == 1) ≡ false = ground arith in
      rw (e1, e2, e3, other)

  -- Dropping a memory whose page table has other users, and whose stack, not empty, is valid and ends
  -- before the last page of the lower half: the pages of the stack are unmapped and no other, the heaps keep their ends,
  -- and the page table has one user less.
  pub release_shared :
      (vm : ProcessVm) (m : Machine x) (s : Space x) (e : ℕ)
      → mapper x vm.page_table m ≡ ok s
      → get vm.heap m.heap_ends ≡ some e
      → using_count x vm.page_table m ≢ 1
      → Fault.IsValid x vm.stack s
      → vm.stack.range.stop < 2 ^ 35
      → 0 < vm.stack.usage
      → (m' : Machine x) × (s' : Space x) × (release x vm m ≡ ok m')
        × (mapper x vm.page_table m' ≡ ok s')
        × Cleared x vm.stack.range.start vm.stack.usage s s'
        × ((r : ℕ) → get r m'.heap_ends ≡ get r m.heap_ends)
        × (using_count x vm.page_table m' ≡ using_count x vm.page_table m - 1)
  release_shared vm m s e at heap shared v low used =
      let (s', done, cleared) = stack_gone vm.stack s v low used in
      let m1 : Machine x = record (write_back x vm.page_table s' m) {
        heap_ends = insert vm.heap e m.heap_ends;
      } in
      (
        Paging.drop x vm.page_table m1,
        s',
        release_run vm m s s' (record (vm.stack) { usage = 0 }) e at done heap shared,
        unfold Paging.drop write_back mapper in
            ground (arith, get-insert vm.page_table vm.page_table s'.table m.tables),
        cleared,
        λ r. unfold Paging.drop in ground (arith, get-insert vm.heap r e m.heap_ends),
        unfold Paging.drop write_back using_count in
            ground (
              arith,
              get-insert vm.page_table vm.page_table (using_count x vm.page_table m - 1) m.refs,
            ),
      )
