-- ===== src/Proc/Calls/Births.antt =====
-- The calls that make a process keep the schedule.
use yat_sen_os.Prelude.{
  ℕ, ◌≡◌, refl, sym, subst, ◌∙◌, true, some, List, [], ◌∷◌, ◌++◌, inl, inr, ◌⊎◌, ok, ok_inj,
  >>=_inv, unwrap,
}
use yat_sen_os.BTreeMap.{has}
use yat_sen_os.Proc.Context.{ProcessContext, UserSelectors, init_stack_frame}
use yat_sen_os.Proc.Memory.{ProcessMemory}
use yat_sen_os.Proc.Process
use yat_sen_os.Proc.Process.{ProcessInner, ProgramStatus}
use yat_sen_os.Proc.Kernel
use yat_sen_os.Proc.Kernel.{
  Kernel, push_ready, save_current, new_pid, kernel_pid, current_proc, add_proc, write_proc,
}
use yat_sen_os.Proc.Kernel.Sched.{Sched, Fits-mono, Nobody, IsValid, push_ready-Queued}
use yat_sen_os.Proc.Kernel.Turns.{Next}
use yat_sen_os.Proc.Kernel.Moves.{
  QueuedOr, push_ready-Sched, save_current-Sched, current_proc_inv, write_proc-same, add_proc-Sched,
}
use yat_sen_os.Proc.Calls.{fork_process, fork, spawn, elf_spawn, new_data}
use yat_sen_os.Proc.Calls.Schedule.{go_next-Next}

module _ (v : ProcessMemory) where
  -- The child is ready, and not in the queue; the queue and the current process are as before.
  fork_process-Sched :
      {queued : ℕ → Type 0} (child : ℕ) (k k' : Kernel v)
      → Sched v Nobody queued k
      → fork_process v k ≡ ok (child, k')
      → (k'.current ≡ k.current)
        × (k'.ready_queue ≡ k.ready_queue)
        × Sched v Nobody (λ q. queued q ⊎ (q ≡ child)) k'
  unfolding fork_process new_pid add_proc write_proc Process.pause Process.set_return
  fork_process-Sched {queued} child k k' sched e =
      let ((pid, p), e1, at1) = >>=_inv (current_proc v k) _ e in
      let ((born, m), e2, at2) = >>=_inv (Process.fork v pid p k.machine) _ e1 in
      let drawn : Kernel v = (new_pid v (record k { machine = m })).1 in
      let parent : ProcessInner v → ProcessInner v = λ q.
        Process.set_return v k.counter (record q { children = q.children ++ k.counter ∷ [] }) in
      subst
        (λ r.
          (r.1.current ≡ k.current)
          × (r.1.ready_queue ≡ k.ready_queue)
          × Sched v Nobody (λ q. queued q ⊎ (q ≡ r.0)) r.1)
        (ok_inj e2)
        (
          refl,
          refl,
          add_proc-Sched v k.counter (Process.pause v born) (write_proc v pid parent drawn) refl
              (write_proc-same v pid parent drawn (λ q. refl) sched),
        )

  -- The parent gets into the queue before the child.
  parent_queued :
      (pid child : ℕ) {parent : ℕ} (saved forked : Kernel v) (q : ℕ)
      → forked.ready_queue ≡ saved.ready_queue
      → pid ≡ parent
      → QueuedOr v parent saved q ⊎ (q ≡ child)
      → QueuedOr v child (push_ready v pid forked) q
  parent_queued pid child saved forked q queue same (inr is_child) = inr is_child
  parent_queued pid child saved forked q queue same (inl (inr is_parent)) =
      inl (push_ready-Queued v pid q forked (inr (is_parent ∙ sym same)))
  parent_queued pid child saved forked q queue same (inl (inl (inr kernel))) = inl (inr kernel)
  parent_queued pid child saved forked q queue same (inl (inl (inl queued))) = inl (
      push_ready-Queued v pid q forked (inl (inl (subst (λ l. has q l ≡ true) (sym queue) queued))))

  pub fork-Next :
      (context c : ProcessContext) (k k' : Kernel v)
      → IsValid v k
      → fork v context k ≡ ok (c, k')
      → Next v k'
  unfolding fork push_ready
  fork-Next context c k k' valid e =
      let (saved, e1, at1) = >>=_inv (save_current v context k) _ e in
      let ((child, forked), e2, at2) = >>=_inv (fork_process v saved) _ e1 in
      let ((pid, p), e3, at3) = >>=_inv (current_proc v forked) _ e2 in
      let (cur, sched) = save_current-Sched v context k saved valid at1 in
      let (cur', queue, born) = fork_process-Sched child saved forked sched at2 in
      let same : pid ≡ k.current = (current_proc_inv v forked pid p at3).0 ∙ cur' ∙ cur in
      go_next-Next v context c (push_ready v child (push_ready v pid forked)) k'
        (push_ready-Sched v child (push_ready v pid forked) (λ q p' here.
          Fits-mono v (λ n. n) (parent_queued pid child saved forked q queue same)
            (born q p' here)))
        e3

  pub spawn-IsValid :
      (selectors : UserSelectors) (elf : v.ElfFile) (name : List ℕ) (parent pid : ℕ)
      (k k' : Kernel v)
      → IsValid v k
      → spawn v selectors elf name parent k ≡ ok (pid, k')
      → IsValid v k'
  unfolding spawn new_pid new_data add_proc push_ready Process.pause
  spawn-IsValid selectors elf name parent pid k k' valid e =
      let (kproc, e1, _) = >>=_inv (unwrap (Kernel.get_proc v kernel_pid k)) _ e in
      let (kernel_vm, e2, _) = >>=_inv (unwrap kproc.proc_vm) _ e1 in
      let ((vm, m), e3, _) = >>=_inv (v.new_from kernel_vm k.machine) _ e2 in
      let ((vm', m'), e4, _) = >>=_inv (v.load_elf elf vm m) _ e3 in
      let ((stack_top, vm'', m''), e5, _) = >>=_inv (v.init_proc_stack k.counter vm' m') _ e4 in
      let (r, k2) = new_data v (new_pid v (record k { machine = m })).1 in
      let made : Kernel v = record k2 { machine = m'' } in
      let born : ProcessInner v =
        Process.pause v (record (Process.new v name (some parent) vm'' r) {
          context =
              init_stack_frame selectors (v.entry_point elf) stack_top
                (Process.new v name (some parent) vm'' r).context;
        }) in
      subst (λ out. IsValid v out.1) (ok_inj e5)
        (push_ready-Sched v k.counter (add_proc v k.counter born made)
          (add_proc-Sched v k.counter born made refl valid))

  pub elf_spawn-IsValid :
      (selectors : UserSelectors) (elf : v.ElfFile) (name : List ℕ) (pid : ℕ) (k k' : Kernel v)
      → IsValid v k
      → elf_spawn v selectors elf name k ≡ ok (pid, k')
      → IsValid v k'
  unfolding elf_spawn
  elf_spawn-IsValid selectors elf name pid k k' valid e =
      let ((parent, p), e1, _) = >>=_inv (current_proc v k) _ e in
      spawn-IsValid selectors elf name parent pid k k' valid e1
