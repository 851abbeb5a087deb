-- ===== src/Proc/Kernel/Exit.antt =====
-- The end of a process: its exit code, and those that wait for it.
use yat_sen_os.Prelude.{
  ok, ℕ, ◌≡◌, ◌≢◌, refl, sym, ◌∙◌, subst, true, false, Option, some, List, [], ◌∷◌, ◌==◌,
  if◌then◌else◌, inl, inr, arith, Option-cases, ℕ_discrete,
}
use yat_sen_os.BTreeMap.{get, remove, has, has-snoc, get-modify}
use mathlib.Core.Option
use yat_sen_os.Proc.Context.{set_rax}
use yat_sen_os.Proc.Memory.{ProcessMemory}
use yat_sen_os.Proc.Process
use yat_sen_os.Proc.Process.{ProcessInner}
use yat_sen_os.Proc.Kernel.{
  Kernel, write_proc, push_ready, get_proc, wake_up, wake_all, wake_waiters, kill_proc, kill,
  get_exit_code,
}
use yat_sen_os.Proc.Kernel.Waking.{woken, kill_proc_inv}

module _ (v : ProcessMemory) where
  get-wake_up :
      (pid q : ℕ) (ret : Option ℕ) (k : Kernel v)
      → get q (wake_up v pid ret k).processes
        ≡ (if pid == q then Option.map (woken v ret) (get q k.processes) else get q k.processes)
  unfolding wake_up write_proc push_ready get_proc
  get-wake_up pid q ret k = elim (Option-cases (get pid k.processes)) [
    | inl gone ↦ ground arith
    | inr (p, here) ↦ rw (here, wake_up) (get-modify pid q (woken v ret) k.processes)
  ]

  has-wake_up :
      (pid q : ℕ) (ret : Option ℕ) (k : Kernel v)
      → has q k.ready_queue ≡ true
      → has q (wake_up v pid ret k).ready_queue ≡ true
  unfolding wake_up write_proc push_ready
  has-wake_up pid q ret k h = ground (arith, has-snoc pid q k.ready_queue)

  -- A process that is ready, stands in the queue and will see `ret` as the result of its call.
  abbrev pub Resumes : ℕ → ℕ → Kernel v → Type 0
  Resumes q ret k =
      (w : ProcessInner v) × (get q k.processes ≡ some w)
      × (Process.is_ready v w ≡ true)
      × (w.context.regs.rax ≡ ret)
      × (has q k.ready_queue ≡ true)

  woken-queued :
      (q : ℕ) (ret : Option ℕ) (w : ProcessInner v) (k : Kernel v)
      → get q k.processes ≡ some w
      → has q (wake_up v q ret k).ready_queue ≡ true
  unfolding wake_up write_proc push_ready get_proc
  woken-queued q ret w k here = ground (arith, here, has-snoc q q k.ready_queue)

  wake_up-wakes :
      (q ret : ℕ) (w : ProcessInner v) (k : Kernel v)
      → get q k.processes ≡ some w
      → Resumes q ret (wake_up v q (some ret) k)
  unfolding Process.pause Process.set_return set_rax Process.is_ready
  wake_up-wakes q ret w k here =
      let at : get q (wake_up v q (some ret) k).processes ≡ some (woken v (some ret) w) =
        ground (arith, get-wake_up q q (some ret) k, here) in
      (woken v (some ret) w, at, refl, refl, woken-queued q (some ret) w k here)

  wake_up-keeps :
      (pid q ret : ℕ) (k : Kernel v) → Resumes q ret k → Resumes q ret (wake_up v pid (some ret) k)
  wake_up-keeps pid q ret k (w, here, is_ready, rax, queued) = elim (ℕ_discrete pid q) [
    | yes same ↦
        subst (λ r. Resumes q ret (wake_up v r (some ret) k)) (sym same)
          (wake_up-wakes q ret w k here)
    | no other ↦
        let at : get q (wake_up v pid (some ret) k).processes ≡ some w =
          ground (arith, get-wake_up pid q (some ret) k, here) in
        (w, at, is_ready, rax, has-wake_up pid q (some ret) k queued)
  ]

  wake_all-keeps :
      (pids : List ℕ) (q ret : ℕ) (k : Kernel v)
      → Resumes q ret k
      → Resumes q ret (wake_all v pids ret k)
  unfolding wake_all
  wake_all-keeps [] q ret k r = r
  wake_all-keeps (pid ∷ pids) q ret k r =
      wake_all-keeps pids q ret (wake_up v pid (some ret) k) (wake_up-keeps pid q ret k r)

  wake_all-wakes :
      (pids : List ℕ) (q ret : ℕ) (w : ProcessInner v) (k : Kernel v)
      → has q pids ≡ true
      → get q k.processes ≡ some w
      → Resumes q ret (wake_all v pids ret k)
  unfolding wake_all has
  wake_all-wakes [] q ret w k waits here = cc
  wake_all-wakes (pid ∷ pids) q ret w k waits here = elim (ℕ_discrete pid q) [
    | yes same ↦ wake_all-keeps pids q ret (wake_up v pid (some ret) k) (
        subst (λ r. Resumes q ret (wake_up v r (some ret) k)) (sym same)
          (wake_up-wakes q ret w k here))
    | no other ↦
        wake_all-wakes pids q ret w (wake_up v pid (some ret) k) (ground arith)
          (ground (arith, get-wake_up pid q (some ret) k, here))
  ]

  -- A process that is there and not dead is so after others, or itself, were woken.
  abbrev pub Alive : ℕ → Kernel v → Type 0
  Alive q k = (p : ProcessInner v) × (get q k.processes ≡ some p) × (Process.is_dead v p ≡ false)

  wake_up-Alive :
      (pid q : ℕ) (ret : Option ℕ) (k : Kernel v) → Alive q k → Alive q (wake_up v pid ret k)
  wake_up-Alive pid q ret k (p, here, alive) = elim (ℕ_discrete pid q) [
    | yes same ↦ (
      woken v ret p,
      ground (arith, get-wake_up pid q ret k, here),
      unfold Process.pause in unfold Process.is_dead in refl,
    )
    | no other ↦ (p, ground (arith, get-wake_up pid q ret k, here), alive)
  ]

  wake_all-Alive :
      (pids : List ℕ) (q ret : ℕ) (k : Kernel v) → Alive q k → Alive q (wake_all v pids ret k)
  unfolding wake_all
  wake_all-Alive [] q ret k a = a
  wake_all-Alive (pid ∷ pids) q ret k a =
      wake_all-Alive pids q ret (wake_up v pid (some ret) k) (wake_up-Alive pid q (some ret) k a)

  kill-run :
      (pid ret : ℕ) (p p' : ProcessInner v) (k : Kernel v)
      → get pid k.processes ≡ some p
      → get pid (wake_waiters v pid ret k).processes ≡ some p'
      → Process.is_dead v p' ≡ false
      → kill v pid ret k ≡ kill_proc v pid p' ret (wake_waiters v pid ret k)
  unfolding kill get_proc
  kill-run pid ret p p' k here there alive = rw (here, kill) (rw (there, alive))

  abbrev pub waiters : ℕ → Kernel v → List ℕ
  waiters pid k = Option.get_or (get pid k.wait_queue) []

  -- The waiters are woken, and then the process, alive still, is killed.
  kill-kill_proc :
      (pid ret : ℕ) (k : Kernel v)
      → Alive pid k
      → (p : ProcessInner v) × (get pid (wake_waiters v pid ret k).processes ≡ some p)
        × (kill v pid ret k ≡ kill_proc v pid p ret (wake_waiters v pid ret k))
  kill-kill_proc pid ret k (p, here, alive) =
      let (p', there, alive') =
        wake_all-Alive (waiters pid k) pid ret (record k { wait_queue = remove pid k.wait_queue })
          (p, here, alive) in
      let there' : get pid (wake_waiters v pid ret k).processes ≡ some p' =
        unfold wake_waiters in there in
      (p', there', kill-run pid ret p p' k here there' alive')

  kill_proc-exit_code :
      (pid ret : ℕ) (p : ProcessInner v) (k k' : Kernel v)
      → get pid k.processes ≡ some p
      → kill_proc v pid p ret k ≡ ok k'
      → get_exit_code v pid k' ≡ some ret
  unfolding write_proc get_exit_code Process.is_dead
  kill_proc-exit_code pid ret p k k' here e =
      let (m, same) = kill_proc_inv v pid ret p k k' e in
      subst (λ r. get_exit_code v pid r ≡ some ret) same
        (ground (arith, get-modify pid pid (λ q. Process.ended v ret p) k.processes))

  kill_proc-Resumes :
      (pid q ret : ℕ) (p : ProcessInner v) (k k' : Kernel v)
      → pid ≢ q
      → kill_proc v pid p ret k ≡ ok k'
      → Resumes q ret k
      → Resumes q ret k'
  unfolding write_proc
  kill_proc-Resumes pid q ret p k k' other e (w, here, is_ready, rax, queued) =
      let (m, same) = kill_proc_inv v pid ret p k k' e in
      let f : ProcessInner v → ProcessInner v = λ u. Process.ended v ret p in
      subst (Resumes q ret) same
        (w, ground (arith, get-modify pid q f k.processes, here), is_ready, rax, queued)

  -- Once a process that was not dead has been killed, its exit code can be read.
  pub kill-exit_code :
      (pid ret : ℕ) (k k' : Kernel v)
      → Alive pid k
      → kill v pid ret k ≡ ok k'
      → get_exit_code v pid k' ≡ some ret
  kill-exit_code pid ret k k' alive e =
      let (p, there, same) = kill-kill_proc pid ret k alive in
      kill_proc-exit_code pid ret p (wake_waiters v pid ret k) k' there (sym same ∙ e)

  -- Once a process that was not dead has been killed, another process that was known and waited for
  -- it, by the wait queue, is ready, stands in the ready queue, and finds the exit code in `rax`.
  pub kill-Resumes :
      (pid ret q : ℕ) (w : ProcessInner v) (k k' : Kernel v)
      → Alive pid k
      → pid ≢ q
      → has q (waiters pid k) ≡ true
      → get q k.processes ≡ some w
      → kill v pid ret k ≡ ok k'
      → Resumes q ret k'
  kill-Resumes pid ret q w k k' alive other waits here e =
      let (p, there, same) = kill-kill_proc pid ret k alive in
      let k0 : Kernel v = record k { wait_queue = remove pid k.wait_queue } in
      let resumed = wake_all-wakes (waiters pid k) q ret w k0 waits here in
      kill_proc-Resumes pid q ret p (wake_waiters v pid ret k) k' other (sym same ∙ e)
        (unfold wake_waiters in resumed)
