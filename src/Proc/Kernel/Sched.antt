-- ===== src/Proc/Kernel/Sched.antt =====
-- Which processes may run, and which stand in the ready queue.
use yat_sen_os.Prelude.{ℕ, ◌≡◌, ◌≢◌, sym, subst, true, some, inl, inr, ◌⊎◌, arith}
use yat_sen_os.BTreeMap.{get, has, get-modify_inv, has-snoc}
use yat_sen_os.Proc.Memory.{ProcessMemory}
use yat_sen_os.Proc.Process.{ProcessInner, ProgramStatus}
use yat_sen_os.Proc.Kernel.{Kernel, kernel_pid, write_proc, push_ready}

abbrev pub Nobody : ℕ → Type 0
Nobody q = ⊥

module _ (v : ProcessMemory) where
  -- A process that runs is in `one`, and a process that is ready is in `queued`.
  pub record Fits (one queued : ℕ → Type 0) (q : ℕ) (p : ProcessInner v) : Type 0 where
    pub if_running : p.status ≡ ProgramStatus.running → one q
    pub if_ready : p.status ≡ ProgramStatus.ready → queued q

  abbrev pub Sched : (ℕ → Type 0) → (ℕ → Type 0) → Kernel v → Type 0
  Sched one queued k =
      (q : ℕ) (p : ProcessInner v) → get q k.processes ≡ some p → Fits one queued q p

  -- The kernel process need not be in the queue: it has its turn when the queue is empty.
  abbrev pub Queued : Kernel v → ℕ → Type 0
  Queued k q = (has q k.ready_queue ≡ true) ⊎ (q ≡ kernel_pid)

  -- Only the current process runs, and a process that is ready stands in the queue.
  abbrev pub IsValid : Kernel v → Type 0
  IsValid k = Sched (λ q. q ≡ k.current) (Queued k) k

  abbrev pub CurrentRuns : Kernel v → Type 0
  CurrentRuns k =
      (p : ProcessInner v) × (get k.current k.processes ≡ some p)
      × (p.status ≡ ProgramStatus.running)

  -- No process has the processor, and a process that is ready stands in the queue.
  abbrev pub IsIdle : Kernel v → Type 0
  IsIdle k = Sched Nobody (Queued k) k

  pub Fits-mono :
      {one queued one' queued' : ℕ → Type 0} {q : ℕ} {p : ProcessInner v}
      → (one q → one' q)
      → (queued q → queued' q)
      → Fits one queued q p
      → Fits one' queued' q p
  Fits-mono f g h = record {
    if_running = λ e. f (h.if_running e);
    if_ready = λ e. g (h.if_ready e);
  }

  -- A write to one process: the others fit as before, and that one must fit after the write.
  pub write_proc-Sched :
      {one queued : ℕ → Type 0} (pid : ℕ) (f : ProcessInner v → ProcessInner v) (k : Kernel v)
      → ((q : ℕ) (p : ProcessInner v) → pid ≢ q → get q k.processes ≡ some p → Fits one queued q p)
      → ((p : ProcessInner v) → get pid k.processes ≡ some p → Fits one queued pid (f p))
      → Sched one queued (write_proc v pid f k)
  unfolding write_proc
  write_proc-Sched {one} {queued} pid f k others this q p e =
      elim (get-modify_inv pid q f p k.processes e) [
        | inl (same, u, found, made) ↦
            subst (λ w. Fits one queued q w) (sym made)
              (subst (λ r. Fits one queued r (f u)) same
                (this u (subst (λ r. get r k.processes ≡ some u) (sym same) found)))
        | inr (other, found) ↦ others q p other found
      ]

  pub push_ready-Queued :
      (pid q : ℕ) (k : Kernel v) → Queued k q ⊎ (q ≡ pid) → Queued (push_ready v pid k) q
  unfolding push_ready
  push_ready-Queued pid q k (inl (inl h)) = inl (ground (arith, has-snoc pid q k.ready_queue))
  push_ready-Queued pid q k (inl (inr e)) = inr e
  push_ready-Queued pid q k (inr e) = inl (ground (arith, has-snoc pid q k.ready_queue))

  -- A process whose status is neither running nor ready fits anywhere.
  pub Fits-off :
      {one queued : ℕ → Type 0} {q : ℕ} {p : ProcessInner v}
      → p.status ≢ ProgramStatus.running
      → p.status ≢ ProgramStatus.ready
      → Fits one queued q p
  Fits-off nr ny = record { if_running = λ e. absurd (nr e); if_ready = λ e. absurd (ny e) }
