-- ===== src/Proc/Kernel/Waking.antt =====
-- Waking processes and killing one keep the schedule.
use yat_sen_os.Prelude.{
  ℕ, ◌≡◌, refl, sym, subst, true, Option, some, List, [], ◌∷◌, inl, inr, arith, Option-cases,
  Bool-cases, ok, ok_inj, >>=_inv,
}
use yat_sen_os.BTreeMap.{get, remove}
use mathlib.Core.Option
use yat_sen_os.Proc.Memory.{ProcessMemory}
use yat_sen_os.Proc.Process
use yat_sen_os.Proc.Process.{ProcessInner, ProgramStatus}
use yat_sen_os.Proc.Kernel.{
  Kernel, write_proc, push_ready, get_proc, with_return, wake_up, wake_all, wake_waiters, kill_proc,
  kill,
}
use yat_sen_os.Proc.Kernel.Sched.{Fits-mono, Fits-off, Sched, Queued, IsIdle, write_proc-Sched}
use yat_sen_os.Proc.Kernel.Moves.{QueuedOr, push_ready-Sched}

abbrev pub woken : (v : ProcessMemory) → Option ℕ → ProcessInner v → ProcessInner v
woken v ret q = Process.pause v (with_return v ret q)

pub wake_up-current :
    (v : ProcessMemory) (pid : ℕ) (ret : Option ℕ) (k : Kernel v)
    → (wake_up v pid ret k).current ≡ k.current
unfolding wake_up push_ready write_proc
wake_up-current v pid ret k = ground arith

module _ (v : ProcessMemory) {one : ℕ → Type 0} where
  woken-Sched :
      (pid : ℕ) (ret : Option ℕ) (k : Kernel v)
      → Sched v one (Queued v k) k
      → Sched v one (QueuedOr v pid k) (write_proc v pid (woken v ret) k)
  unfolding Process.pause
  woken-Sched pid ret k h =
      write_proc-Sched v pid (woken v ret) k (λ q p other e. Fits-mono v (λ o. o) inl (h q p e))
        (λ p e. record { if_running = λ r. absurd cc; if_ready = λ r. inr refl })

  pub wake_up-Sched :
      (pid : ℕ) (ret : Option ℕ) (k : Kernel v)
      → Sched v one (Queued v k) k
      → Sched v one (Queued v (wake_up v pid ret k)) (wake_up v pid ret k)
  unfolding wake_up write_proc
  wake_up-Sched pid ret k h = elim (Option-cases (get_proc v pid k)) [
    | inl gone ↦ rw (gone, wake_up) h
    | inr (p, here) ↦
        rw (here, wake_up)
          (push_ready-Sched v pid (write_proc v pid (woken v ret) k) (woken-Sched pid ret k h))
  ]

  pub wake_all-Sched :
      (pids : List ℕ) (ret : ℕ) (k : Kernel v)
      → Sched v one (Queued v k) k
      → Sched v one (Queued v (wake_all v pids ret k)) (wake_all v pids ret k)
  unfolding wake_all
  wake_all-Sched [] ret k h = h
  wake_all-Sched (pid ∷ pids) ret k h =
      wake_all-Sched pids ret (wake_up v pid (some ret) k) (wake_up-Sched pid (some ret) k h)

  pub wake_waiters-Sched :
      (pid ret : ℕ) (k : Kernel v)
      → Sched v one (Queued v k) k
      → Sched v one (Queued v (wake_waiters v pid ret k)) (wake_waiters v pid ret k)
  unfolding wake_waiters
  wake_waiters-Sched pid ret k h =
      wake_all-Sched (Option.get_or (get pid k.wait_queue) []) ret
        (record k { wait_queue = remove pid k.wait_queue }) h

module _ (v : ProcessMemory) (pid ret : ℕ) where
  abbrev Only : Kernel v → Type 0
  Only k = Sched v (λ q. q ≡ pid) (Queued v k) k

  -- The one process that may run is not there, or is dead.
  Only-IsIdle :
      (k : Kernel v)
      → ((p : ProcessInner v) → get pid k.processes ≡ some p → Process.is_dead v p ≡ true)
      → Only k
      → IsIdle v k
  unfolding Process.is_dead
  Only-IsIdle k dead h q p e = record {
    if_running = λ runs.
        let same : q ≡ pid = (h q p e).if_running runs in
        absurd (ground (arith, dead p (subst (λ r. get r k.processes ≡ some p) same e)));
    if_ready = (h q p e).if_ready;
  }

  -- A process that is killed ends, and nothing but it and the machine changes.
  pub kill_proc_inv :
      (p : ProcessInner v) (k k' : Kernel v)
      → kill_proc v pid p ret k ≡ ok k'
      → (m : v.Machine) × (write_proc v pid (λ q. Process.ended v ret p) (record k { machine = m })
          ≡ k')
  unfolding kill_proc Process.kill
  kill_proc_inv p k k' e =
      let (r, e1, at) = >>=_inv (Process.kill v ret p k.machine) _ e in
      let (m, e2, _) = >>=_inv (Process.released v p.proc_vm k.machine) _ at in
      (
        m,
        subst (λ t. write_proc v pid (λ q. t.0) (record k { machine = t.1 }) ≡ k') (sym (ok_inj e2))
            (ok_inj e1),
      )

  kill_proc-IsIdle :
      (p : ProcessInner v) (k k' : Kernel v)
      → Only k
      → kill_proc v pid p ret k ≡ ok k'
      → IsIdle v k'
  unfolding write_proc
  kill_proc-IsIdle p k k' h e =
      let (m, same) = kill_proc_inv p k k' e in
      let k1 : Kernel v = record k { machine = m } in
      subst (IsIdle v) same (
        write_proc-Sched v pid (λ q. Process.ended v ret p) k1
          (λ q p' other here. Fits-mono v (λ same'. other (sym same')) (λ d. d) (h q p' here))
          (λ p' here. Fits-off v (λ r. absurd cc) (λ r. absurd cc)))

  -- Killing the process that may run leaves none that runs, and wakes none that is not queued.
  pub kill-IsIdle :
      (k k' : Kernel v)
      → Sched v (λ q. q ≡ pid) (Queued v k) k
      → kill v pid ret k ≡ ok k'
      → IsIdle v k'
  unfolding kill get_proc
  kill-IsIdle k k' h e = elim (Option-cases (get pid k.processes)) [
    | inl gone ↦
        let same : k ≡ k' = ground (arith, gone) in
        subst (IsIdle v) same (Only-IsIdle k (λ p e. absurd (ground (arith, gone))) h)
    | inr (p, here) ↦
        let k1 : Kernel v = wake_waiters v pid ret k in
        let woken1 : Only k1 = wake_waiters-Sched v pid ret k h in
        elim (Option-cases (get pid k1.processes)) [
          | inl gone ↦
              let same : k1 ≡ k' = ground (arith, here, gone) in
              subst (IsIdle v) same (Only-IsIdle k1 (λ p e. absurd (ground (arith, gone))) woken1)
          | inr (p', there) ↦ elim (Bool-cases (Process.is_dead v p')) [
            | inl dead ↦
                let same : k1 ≡ k' = ground (arith, here, there, dead) in
                subst (IsIdle v) same (Only-IsIdle k1 (λ p e. ground (arith, there, dead)) woken1)
            | inr alive ↦ kill_proc-IsIdle p' k1 k' woken1 (ground (arith, here, there, alive))
          ]
        ]
  ]
