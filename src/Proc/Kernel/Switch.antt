-- ===== src/Proc/Kernel/Switch.antt =====
-- Which process `switch_next` gives the processor to.
use yat_sen_os.Prelude.{
  ℕ, zero, suc, ◌+◌, ◌≡◌, refl, sym, ap, subst, ◌∙◌, Bool, true, false, none, some, List, [], ◌∷◌,
  ◌++◌, ◌==◌, if◌then◌else◌, Outcome, ok, endless, length, arith, Option-cases, inl, inr,
  length-append,
}
use Prim.Native.Nat.add
use yat_sen_os.BTreeMap.{get, modify, get-modify}
use yat_sen_os.Proc.Context.{ProcessContext}
use yat_sen_os.Proc.Memory.{ProcessMemory}
use yat_sen_os.Proc.Process
use yat_sen_os.Proc.Process.{ProcessInner, ProgramStatus}
use yat_sen_os.Proc.Kernel.{
  Kernel, kernel_pid, pop_ready, dispatch, visit, switch_loop, switch_next,
}

module _ (v : ProcessMemory) where
  -- Whether the pid names a process that is ready.
  abbrev pub ready_at : Kernel v → ℕ → Bool
  ready_at k pid = elim (get pid k.processes) [ none ↦ false | some p ↦ Process.is_ready v p ]

  abbrev pub NoneReady : Kernel v → List ℕ → Type 0
  NoneReady k [] = Unit {0}
  NoneReady k (pid ∷ pids) = (ready_at k pid ≡ false) × NoneReady k pids

  abbrev queue : List ℕ → Kernel v → Kernel v
  queue pids k = record k { ready_queue = pids }

  -- The processor goes to `pid`: its context is the one to go on with, it runs, and every other
  -- process is as it was.
  abbrev pub Dispatched :
      ℕ → ProcessInner v → List ℕ → Kernel v → Outcome (ℕ × ProcessContext × Kernel v) → Type 0
  Dispatched pid p rest k r =
      (k' : Kernel v) × (r ≡ ok (pid, p.context, k'))
      × (k'.current ≡ pid)
      × (k'.ready_queue ≡ rest)
      × ((q : ℕ)
          → get q k'.processes ≡ (
              if pid == q
              then some (record p { status = ProgramStatus.running })
              else get q k.processes))

  pub dispatch-Dispatched :
      (pid : ℕ) (p : ProcessInner v) (vm : v.Vm) (context : ProcessContext) (k : Kernel v)
      → get pid k.processes ≡ some p
      → p.proc_vm ≡ some vm
      → Dispatched pid p k.ready_queue k (dispatch v pid p context k)
  unfolding dispatch Process.restore
  dispatch-Dispatched pid p vm context k here has_vm =
      let running : ProcessInner v = record p { status = ProgramStatus.running } in
      (
        record k {
          processes = modify pid (λ q. running) k.processes;
          machine = v.load vm k.machine;
          current = pid;
        },
        rw (has_vm, dispatch, Process.restore),
        refl,
        refl,
        λ q. ground (arith, get-modify pid q (λ p'. running) k.processes, here),
      )

  pub pop_cons :
      (pid : ℕ) (rest : List ℕ) (k : Kernel v)
      → k.ready_queue ≡ pid ∷ rest
      → pop_ready v k ≡ (pid, queue rest k)
  unfolding pop_ready
  pop_cons pid rest k e = ground arith

  pub pop_nil : (k : Kernel v) → k.ready_queue ≡ [] → pop_ready v k ≡ (kernel_pid, k)
  unfolding pop_ready
  pop_nil k e = ground arith

  -- One round, at a process that is ready and at a pid that is not.
  pub loop_ready :
      (fuel pid : ℕ) (p : ProcessInner v) (vm : v.Vm) (context : ProcessContext) (k k1 : Kernel v)
      → pop_ready v k ≡ (pid, k1)
      → get pid k1.processes ≡ some p
      → Process.is_ready v p ≡ true
      → p.proc_vm ≡ some vm
      → Dispatched pid p k1.ready_queue k1 (switch_loop v (suc fuel) context k)
  unfolding switch_loop visit
  loop_ready fuel pid p vm context k k1 popped here is_ready has_vm = rw popped (
      rw (here, visit) (rw (is_ready, visit) (dispatch-Dispatched pid p vm context k1 here has_vm)))

  pub loop_skip :
      (fuel pid : ℕ) (context : ProcessContext) (k k1 : Kernel v)
      → pop_ready v k ≡ (pid, k1)
      → ready_at k1 pid ≡ false
      → switch_loop v (suc fuel) context k ≡ switch_loop v fuel context k1
  unfolding switch_loop visit
  loop_skip fuel pid context k k1 popped skip = elim (Option-cases (get pid k1.processes)) [
    | inl gone ↦ rw popped (rw (gone, visit))
    | inr (p, here) ↦
        let no_turn : Process.is_ready v p ≡ false = ground arith in
        rw popped (rw (here, visit) (rw (no_turn, visit)))
  ]

  loop_finds :
      (skipped : List ℕ) (fuel pid : ℕ) (rest : List ℕ) (p : ProcessInner v) (vm : v.Vm)
      (context : ProcessContext) (k : Kernel v)
      → k.ready_queue ≡ skipped ++ pid ∷ rest
      → NoneReady k skipped
      → get pid k.processes ≡ some p
      → Process.is_ready v p ≡ true
      → p.proc_vm ≡ some vm
      → Dispatched pid p rest k (switch_loop v (suc (length skipped + fuel)) context k)
  loop_finds [] fuel pid rest p vm context k q none_ready here is_ready has_vm =
      rw (add.zero fuel) (
        loop_ready fuel pid p vm context k (queue rest k) (pop_cons pid rest k q) here is_ready
          has_vm)
  loop_finds (s ∷ ss) fuel pid rest p vm context k q none_ready here is_ready has_vm =
      let k1 : Kernel v = queue (ss ++ pid ∷ rest) k in
      rw
        (loop_skip (suc (length ss) + fuel) s context k k1 (pop_cons s (ss ++ pid ∷ rest) k q)
          none_ready.0)
        (rw (add.suc (length ss) fuel)
          (loop_finds ss fuel pid rest p vm context k1 refl none_ready.1 here is_ready has_vm))

  loop_kernel :
      (pids : List ℕ) (fuel : ℕ) (p : ProcessInner v) (vm : v.Vm) (context : ProcessContext)
      (k : Kernel v)
      → k.ready_queue ≡ pids
      → NoneReady k pids
      → get kernel_pid k.processes ≡ some p
      → Process.is_ready v p ≡ true
      → p.proc_vm ≡ some vm
      → Dispatched kernel_pid p [] k (switch_loop v (suc (length pids + fuel)) context k)
  loop_kernel [] fuel p vm context k q none_ready here is_ready has_vm = rw (add.zero fuel) (
      subst (λ rest. Dispatched kernel_pid p rest k (switch_loop v (suc fuel) context k)) q
        (loop_ready fuel kernel_pid p vm context k k (pop_nil k q) here is_ready has_vm))
  loop_kernel (s ∷ ss) fuel p vm context k q none_ready here is_ready has_vm =
      let k1 : Kernel v = queue ss k in
      rw (loop_skip (suc (length ss) + fuel) s context k k1 (pop_cons s ss k q) none_ready.0) (
        rw (add.suc (length ss) fuel)
          (loop_kernel ss fuel p vm context k1 refl none_ready.1 here is_ready has_vm))

  loop_endless :
      (fuel : ℕ) (pids : List ℕ) (context : ProcessContext) (k : Kernel v)
      → k.ready_queue ≡ pids
      → NoneReady k pids
      → ready_at k kernel_pid ≡ false
      → switch_loop v fuel context k ≡ endless
  unfolding switch_loop
  loop_endless zero pids context k q none_ready idle = refl
  loop_endless (suc fuel) [] context k q none_ready idle =
      loop_skip fuel kernel_pid context k k (pop_nil k q) idle
      ∙ loop_endless fuel [] context k q none_ready idle
  loop_endless (suc fuel) (pid ∷ pids) context k q none_ready idle =
      let k1 : Kernel v = queue pids k in
      loop_skip fuel pid context k k1 (pop_cons pid pids k q) none_ready.0
      ∙ loop_endless fuel pids context k1 refl none_ready.1 idle

  -- The first pid of the queue that names a ready process, which has its memory, gets the processor:
  -- `switch_next` returns that process's context, makes it current and running, removes it and
  -- the pids before it from the queue, and leaves every other process as it was.
  pub switch_next-first :
      (skipped : List ℕ) (pid : ℕ) (rest : List ℕ) (p : ProcessInner v) (vm : v.Vm)
      (context : ProcessContext) (k : Kernel v)
      → k.ready_queue ≡ skipped ++ pid ∷ rest
      → NoneReady k skipped
      → get pid k.processes ≡ some p
      → Process.is_ready v p ≡ true
      → p.proc_vm ≡ some vm
      → Dispatched pid p rest k (switch_next v context k)
  unfolding switch_next
  switch_next-first skipped pid rest p vm context k q none_ready here is_ready has_vm =
      let long : length k.ready_queue ≡ length skipped + suc (length rest) =
        ap length q ∙ length-append skipped (pid ∷ rest) in
      subst (λ n. Dispatched pid p rest k (switch_loop v (suc n) context k)) (sym long)
        (loop_finds skipped (suc (length rest)) pid rest p vm context k q none_ready here is_ready
          has_vm)

  -- If no pid of the queue names a ready process and the kernel process, which has its memory, is
  -- ready, `switch_next` empties the queue and gives the processor to the kernel process.
  pub switch_next-kernel :
      (p : ProcessInner v) (vm : v.Vm) (context : ProcessContext) (k : Kernel v)
      → NoneReady k k.ready_queue
      → get kernel_pid k.processes ≡ some p
      → Process.is_ready v p ≡ true
      → p.proc_vm ≡ some vm
      → Dispatched kernel_pid p [] k (switch_next v context k)
  unfolding switch_next
  switch_next-kernel p vm context k none_ready here is_ready has_vm =
      let no_more : length k.ready_queue + 0 ≡ length k.ready_queue = omega arith in
      subst (λ n. Dispatched kernel_pid p [] k (switch_loop v (suc n) context k)) no_more
        (loop_kernel k.ready_queue 0 p vm context k refl none_ready here is_ready has_vm)

  -- If neither a pid of the queue nor the kernel's names a ready process, `switch_next` does not
  -- return, and no number of rounds makes its loop return.
  pub switch_next-spins :
      (fuel : ℕ) (context : ProcessContext) (k : Kernel v)
      → NoneReady k k.ready_queue
      → ready_at k kernel_pid ≡ false
      → (switch_next v context k ≡ endless) × (switch_loop v fuel context k ≡ endless)
  unfolding switch_next
  switch_next-spins fuel context k none_ready idle = (
    loop_endless (suc (length k.ready_queue)) k.ready_queue context k refl none_ready idle,
    loop_endless fuel k.ready_queue context k refl none_ready idle,
  )
