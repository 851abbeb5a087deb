-- ===== src/Proc/Kernel/Turns.antt =====
-- `switch_next` hands a valid schedule on.
use yat_sen_os.Prelude.{
  ℕ, zero, suc, ◌≡◌, refl, sym, subst, true, false, some, List, [], ◌∷◌, ◌==◌, if◌then◌else◌, inl,
  inr, ◌⊎◌, arith, Option-cases, Bool-cases, ℕ_discrete, ok, Outcome, length,
}
use yat_sen_os.BTreeMap.{get, has}
use yat_sen_os.Proc.Context.{ProcessContext}
use yat_sen_os.Proc.Memory.{ProcessMemory}
use yat_sen_os.Proc.Process
use yat_sen_os.Proc.Process.{ProcessInner, ProgramStatus}
use yat_sen_os.Proc.Kernel.{
  Kernel, kernel_pid, pop_ready, dispatch, visit, switch_loop, switch_next,
}
use yat_sen_os.Proc.Kernel.Sched.{Fits-mono, Sched, Queued, Nobody, CurrentRuns, IsValid, IsIdle}
use yat_sen_os.Proc.Kernel.Switch.{ready_at, Dispatched, dispatch-Dispatched, pop_cons, pop_nil}

module _ (v : ProcessMemory) where
  -- The state after the front of the queue was taken: only that pid may be ready and not queued.
  abbrev Taken : ℕ → Kernel v → Type 0
  Taken pid k = Sched v Nobody (λ q. Queued v k q ⊎ (q ≡ pid)) k

  popped_from :
      (rest : List ℕ) (k : Kernel v)
      → k.ready_queue ≡ rest
      → IsIdle v k
      → Taken (pop_ready v k).0 (pop_ready v k).1
  unfolding has
  popped_from [] k e idle =
      subst (λ r. Taken r.0 r.1) (sym (pop_nil v k e))
        (λ q p here. Fits-mono v (λ n. n) inl (idle q p here))
  popped_from (pid ∷ rest) k e idle =
      subst (λ r. Taken r.0 r.1) (sym (pop_cons v pid rest k e))
        (λ q p here.
          Fits-mono v (λ n. n)
            (λ h. elim h [
              | inl queued ↦ elim (ℕ_discrete pid q) [
                | yes same ↦ inr (sym same)
                | no other ↦ inl (inl (ground (arith, e)))
              ]
              | inr kernel ↦ inl (inr kernel)
            ])
            (idle q p here))

  Taken-IsIdle : (pid : ℕ) (k : Kernel v) → Taken pid k → ready_at v k pid ≡ false → IsIdle v k
  unfolding Process.is_ready
  Taken-IsIdle pid k taken off q p e = record {
    if_running = (taken q p e).if_running;
    if_ready = λ ready. elim ((taken q p e).if_ready ready) [
      | inl queued ↦ queued
      | inr same ↦ absurd (ground arith)
    ];
  }

  abbrev pub Next : Kernel v → Type 0
  Next k = IsValid v k × CurrentRuns v k

  Dispatched-Sched :
      (pid : ℕ) (p : ProcessInner v) (k k' : Kernel v)
      → Taken pid k
      → k'.current ≡ pid
      → k'.ready_queue ≡ k.ready_queue
      → ((q : ℕ)
          → get q k'.processes ≡ (
              if pid == q
              then some (record p { status = ProgramStatus.running })
              else get q k.processes))
      → Next k'
  Dispatched-Sched pid p k k' taken cur queue at = (
    λ q p' e. elim (ℕ_discrete pid q) [
      | yes same ↦ record {
        if_running = λ runs. ground (arith, cur, same);
        if_ready = λ ready. absurd (ground (arith, at q, same, ready, e));
      }
      | no other ↦
          let before : get q k.processes ≡ some p' = ground (arith, at q, e) in
          Fits-mono v (λ n. absurd n)
            (λ h. elim h [
              | inl queued ↦ subst (λ l. (has q l ≡ true) ⊎ (q ≡ kernel_pid)) (sym queue) queued
              | inr same ↦ absurd (other (sym same))
            ])
            (taken q p' before)
    ],
    (record p { status = ProgramStatus.running }, ground (arith, cur, at pid), refl),
  )

  Dispatched-IsValid :
      (pid next : ℕ) (p : ProcessInner v) (c : ProcessContext) (k k' : Kernel v)
      {r : Outcome (ℕ × ProcessContext × Kernel v)}
      → Taken pid k
      → Dispatched v pid p k.ready_queue k r
      → r ≡ ok (next, c, k')
      → Next k'
  Dispatched-IsValid pid next p c k k' taken (k1, e1, cur, queue, at) e =
      let same : k1 ≡ k' = cc in subst Next same (Dispatched-Sched pid p k k1 taken cur queue at)

  dispatch-IsValid :
      (pid next : ℕ) (p : ProcessInner v) (context c : ProcessContext) (k k' : Kernel v)
      → get pid k.processes ≡ some p
      → Taken pid k
      → dispatch v pid p context k ≡ ok (next, c, k')
      → Next k'
  unfolding dispatch Process.restore
  dispatch-IsValid pid next p context c k k' here taken e = elim (Option-cases p.proc_vm) [
    | inl gone ↦ absurd (ground arith)
    | inr (vm, has_vm) ↦
        Dispatched-IsValid pid next p c k k' taken
          (dispatch-Dispatched v pid p vm context k here has_vm) e
  ]

  visit-IsValid :
      (go_on : Kernel v → Outcome (ℕ × ProcessContext × Kernel v)) (pid next : ℕ)
      (context c : ProcessContext) (k k' : Kernel v)
      → Taken pid k
      → (IsIdle v k → go_on k ≡ ok (next, c, k') → Next k')
      → visit v go_on context pid k ≡ ok (next, c, k')
      → Next k'
  unfolding visit
  visit-IsValid go_on pid next context c k k' taken later e =
      elim (Option-cases (get pid k.processes)) [
        | inl gone ↦ later (Taken-IsIdle pid k taken (ground arith)) (ground arith)
        | inr (p, here) ↦ elim (Bool-cases (Process.is_ready v p)) [
          | inl turn ↦ dispatch-IsValid pid next p context c k k' here taken (ground arith)
          | inr no_turn ↦ later (Taken-IsIdle pid k taken (ground arith)) (ground arith)
        ]
      ]

  switch_loop-IsValid :
      (fuel next : ℕ) (context c : ProcessContext) (k k' : Kernel v)
      → IsIdle v k
      → switch_loop v fuel context k ≡ ok (next, c, k')
      → Next k'
  unfolding switch_loop
  switch_loop-IsValid zero next context c k k' idle e = cc
  switch_loop-IsValid (suc fuel) next context c k k' idle e =
      visit-IsValid (λ later. switch_loop v fuel context later) (pop_ready v k).0 next context c
        (pop_ready v k).1 k' (popped_from k.ready_queue k refl idle)
        (λ idle'. switch_loop-IsValid fuel next context c (pop_ready v k).1 k' idle') e

  pub switch_next-IsValid :
      (next : ℕ) (context c : ProcessContext) (k k' : Kernel v)
      → IsIdle v k
      → switch_next v context k ≡ ok (next, c, k')
      → Next k'
  unfolding switch_next
  switch_next-IsValid next context c k k' =
      switch_loop-IsValid (suc (length k.ready_queue)) next context c k k'
