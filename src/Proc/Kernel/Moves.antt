-- ===== src/Proc/Kernel/Moves.antt =====
-- What the operations of the process manager do to the schedule.
use yat_sen_os.Prelude.{
  ℕ, ◌≡◌, refl, sym, ap, ◌∙◌, subst, some, inl, inr, ◌⊎◌, arith, Option-cases, Bool-cases, ok,
  >>=_inv,
}
use yat_sen_os.BTreeMap.{get, get-insert_inv}
use yat_sen_os.Proc.Context.{ProcessContext}
use yat_sen_os.Proc.Memory.{ProcessMemory}
use yat_sen_os.Proc.Process
use yat_sen_os.Proc.Process.{ProcessInner, ProgramStatus}
use yat_sen_os.Proc.Kernel.{
  Kernel, write_proc, push_ready, add_proc, save_current, current_proc, get_pid, get_proc, block,
}
use yat_sen_os.Proc.Kernel.Sched.{
  Fits, Fits-mono, Fits-off, Sched, Queued, Nobody, IsValid, IsIdle, write_proc-Sched,
  push_ready-Queued,
}

module _ (v : ProcessMemory) where
  -- In the queue, or the process `pid`, which is about to be put there.
  abbrev pub QueuedOr : ℕ → Kernel v → ℕ → Type 0
  QueuedOr pid k q = Queued v k q ⊎ (q ≡ pid)

  pub push_ready-Sched :
      {one : ℕ → Type 0} (pid : ℕ) (k : Kernel v)
      → Sched v one (QueuedOr pid k) k
      → Sched v one (Queued v (push_ready v pid k)) (push_ready v pid k)
  unfolding push_ready
  push_ready-Sched pid k h q p e = Fits-mono v (λ o. o) (push_ready-Queued v pid q k) (h q p e)

  -- A write that keeps the status.
  pub write_proc-same :
      {one queued : ℕ → Type 0} (pid : ℕ) (f : ProcessInner v → ProcessInner v) (k : Kernel v)
      → ((p : ProcessInner v) → (f p).status ≡ p.status)
      → Sched v one queued k
      → Sched v one queued (write_proc v pid f k)
  write_proc-same pid f k keeps h =
      write_proc-Sched v pid f k (λ q p other e. h q p e)
        (λ p e. record {
          if_running = λ r. (h pid p e).if_running (sym (keeps p) ∙ r);
          if_ready = λ r. (h pid p e).if_ready (sym (keeps p) ∙ r);
        })

  pub current_proc_inv :
      (k : Kernel v) (pid : ℕ) (p : ProcessInner v)
      → current_proc v k ≡ ok (pid, p)
      → (pid ≡ k.current) × (get k.current k.processes ≡ some p)
  unfolding current_proc get_pid get_proc
  current_proc_inv k pid p e = elim (Option-cases (get k.current k.processes)) [
    | inl gone ↦ absurd (ground arith)
    | inr (u, here) ↦ ground arith
  ]

  save_current_inv :
      (context : ProcessContext) (k k' : Kernel v)
      → save_current v context k ≡ ok k'
      → k' ≡ write_proc v k.current (λ q. Process.save v context (Process.tick v q)) k
  unfolding save_current
  save_current_inv context k k' e =
      let ((pid, p), e', at) = >>=_inv (current_proc v k) _ e in
      let found = current_proc_inv k pid p at in
      let same : write_proc v pid (λ q. Process.save v context (Process.tick v q)) k ≡ k' = cc in
      sym same ∙ ap (λ r. write_proc v r (λ q. Process.save v context (Process.tick v q)) k) found.0

  saved-Fits :
      (context : ProcessContext) (pid : ℕ) (p : ProcessInner v) (k : Kernel v)
      → Fits v Nobody (QueuedOr pid k) pid (Process.save v context (Process.tick v p))
  unfolding Process.save Process.tick Process.is_dead Process.pause
  saved-Fits context pid p k = elim (Bool-cases (Process.is_dead v (Process.tick v p))) [
    | inl dead ↦ record { if_running = λ r. absurd (ground arith); if_ready = λ r. inr refl }
    | inr alive ↦ record { if_running = λ r. absurd (ground arith); if_ready = λ r. inr refl }
  ]

  -- Saving takes the processor from the current process, which is then ready, unless it is dead, and
  -- not in the queue yet.
  pub save_current-Sched :
      (context : ProcessContext) (k k' : Kernel v)
      → IsValid v k
      → save_current v context k ≡ ok k'
      → (k'.current ≡ k.current) × Sched v Nobody (QueuedOr k.current k') k'
  unfolding write_proc
  save_current-Sched context k k' valid e =
      subst (λ r. (r.current ≡ k.current) × Sched v Nobody (QueuedOr k.current r) r)
        (sym (save_current_inv context k k' e))
        (
          refl,
          write_proc-Sched v k.current (λ q. Process.save v context (Process.tick v q)) k
              (λ q p other here. Fits-mono v (λ run. other (sym run)) inl (valid q p here))
              (λ p here. saved-Fits context k.current p k),
        )

  -- Blocking the one process that is ready and not in the queue.
  pub block-IsIdle :
      (pid : ℕ) (k : Kernel v) → Sched v Nobody (QueuedOr pid k) k → IsIdle v (block v pid k)
  unfolding block write_proc Process.block
  block-IsIdle pid k h =
      write_proc-Sched v pid (Process.block v) k
        (λ q p other here.
          Fits-mono v (λ n. n) (λ d. elim d [ inl a ↦ a | inr same ↦ absurd (other (sym same)) ])
            (h q p here))
        (λ p here. Fits-off v (λ e. absurd cc) (λ e. absurd cc))

  -- A new process, ready and not in the queue.
  pub add_proc-Sched :
      {one : ℕ → Type 0} (pid : ℕ) (new : ProcessInner v) (k : Kernel v)
      → new.status ≡ ProgramStatus.ready
      → {queued : ℕ → Type 0} → Sched v one queued k
      → Sched v one (λ q. queued q ⊎ (q ≡ pid)) (add_proc v pid new k)
  unfolding add_proc
  add_proc-Sched {one} pid new k is_new {queued} h q p e =
      elim (get-insert_inv pid q new p k.processes e) [
        | inl (same, made) ↦ record { if_running = λ r. absurd cc; if_ready = λ r. inr (sym same) }
        | inr (other, here) ↦ Fits-mono v (λ o. o) inl (h q p here)
      ]
