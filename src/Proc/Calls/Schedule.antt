-- ===== src/Proc/Calls/Schedule.antt =====
-- The calls that may give the processor away keep the schedule.
use yat_sen_os.Prelude.{
  ℕ, ◌≡◌, sym, subst, ap, ◌∙◌, inl, inr, arith, Option-cases, ok, ok_inj, >>=_inv,
}
use yat_sen_os.Proc.Context.{ProcessContext}
use yat_sen_os.Proc.Memory.{ProcessMemory}
use yat_sen_os.Proc.Kernel
use yat_sen_os.Proc.Kernel.{Kernel, get_pid, push_ready, save_current, switch_next, kill}
use yat_sen_os.Proc.Kernel.Sched.{Sched, Queued, Nobody, IsValid, IsIdle}
use yat_sen_os.Proc.Kernel.Turns.{Next, switch_next-IsValid}
use yat_sen_os.Proc.Kernel.Moves.{
  QueuedOr, push_ready-Sched, save_current-Sched, block-IsIdle, current_proc_inv,
}
use yat_sen_os.Proc.Kernel.Waking.{kill-IsIdle}
use yat_sen_os.Proc.Calls.{go_next, switch, process_exit, wait_pid, await_exit, block_current}

module _ (v : ProcessMemory) where
  pub go_next-Next :
      (context c : ProcessContext) (k k' : Kernel v)
      → IsIdle v k
      → go_next v context k ≡ ok (c, k')
      → Next v k'
  unfolding go_next
  go_next-Next context c k k' idle e =
      let (r, e', at) = >>=_inv (switch_next v context k) _ e in
      let same : r.2 ≡ k' = cc in
      subst (Next v) same (switch_next-IsValid v r.0 context r.1 k r.2 idle at)

  pub get_pid_inv : (k : Kernel v) (pid : ℕ) → get_pid v k ≡ ok pid → pid ≡ k.current
  unfolding get_pid
  get_pid_inv k pid e = ground arith

  pub switch-Next :
      (context c : ProcessContext) (k k' : Kernel v)
      → IsValid v k
      → switch v context k ≡ ok (c, k')
      → Next v k'
  unfolding switch
  switch-Next context c k k' valid e =
      let (saved, e1, at) = >>=_inv (save_current v context k) _ e in
      let (pid, e2, at2) = >>=_inv (get_pid v saved) _ e1 in
      let (cur, sched) = save_current-Sched v context k saved valid at in
      let same : pid ≡ k.current = get_pid_inv saved pid at2 ∙ cur in
      go_next-Next context c (push_ready v pid saved) k'
        (push_ready-Sched v pid saved
          (subst (λ r. Sched v Nobody (QueuedOr v r saved) saved) (sym same) sched))
        e2

  pub process_exit-Next :
      (ret : ℕ) (context c : ProcessContext) (k k' : Kernel v)
      → IsValid v k
      → process_exit v ret context k ≡ ok (c, k')
      → Next v k'
  unfolding process_exit
  process_exit-Next ret context c k k' valid e =
      let (pid, e1, at) = >>=_inv (get_pid v k) _ e in
      let same : pid ≡ k.current = get_pid_inv k pid at in
      let (killed, e2, at2) = >>=_inv (kill v pid ret k) _ e1 in
      let own = subst (λ r. Sched v (λ q. q ≡ r) (Queued v k) k) (sym same) valid in
      go_next-Next context c killed k' (kill-IsIdle v pid ret k killed own at2) e2

  -- A process that is saved and blocked.
  pub save-block :
      (pid : ℕ) (context : ProcessContext) (k saved : Kernel v)
      → IsValid v k
      → pid ≡ k.current
      → save_current v context k ≡ ok saved
      → IsIdle v (Kernel.block v pid saved)
  save-block pid context k saved valid same at = block-IsIdle v pid saved (
      subst (λ r. Sched v Nobody (QueuedOr v r saved) saved) (sym same)
        (save_current-Sched v context k saved valid at).1)

  block_current_inv :
      (k k' : Kernel v) → block_current v k ≡ ok k' → Kernel.block v k.current k ≡ k'
  unfolding block_current
  block_current_inv k k' e =
      let ((pid, p), e', at) = >>=_inv (Kernel.current_proc v k) _ e in
      let same : Kernel.block v pid k ≡ k' = cc in
      ap (λ r. Kernel.block v r k) (sym (current_proc_inv v k pid p at).0) ∙ same

  enqueued-IsValid :
      (pid : ℕ) (k k' : Kernel v) → IsValid v k → Kernel.wait_pid v pid k ≡ ok k' → IsValid v k'
  unfolding Kernel.wait_pid
  enqueued-IsValid pid k k' valid e = subst (IsValid v) (ok_inj (>>=_inv (get_pid v k) _ e).1) valid

  await_exit-Next :
      (pid : ℕ) (context c : ProcessContext) (k k' : Kernel v)
      → IsValid v k
      → await_exit v pid context k ≡ ok (c, k')
      → Next v k'
  unfolding await_exit
  await_exit-Next pid context c k k' valid e =
      let (waiting, e1, at1) = >>=_inv (Kernel.wait_pid v pid k) _ e in
      let (saved, e2, at2) = >>=_inv (save_current v context waiting) _ e1 in
      let (blocked, e3, at3) = >>=_inv (block_current v saved) _ e2 in
      let waits = enqueued-IsValid pid k waiting valid at1 in
      let cur = (save_current-Sched v context waiting saved waits at2).0 in
      let idle : IsIdle v blocked =
        subst (IsIdle v) (block_current_inv saved blocked at3)
          (save-block saved.current context waiting saved waits cur at2) in
      go_next-Next context c blocked k' idle e3

  -- A dead process's exit code is answered at once.
  pub wait_pid-IsValid :
      (pid : ℕ) (context c : ProcessContext) (k k' : Kernel v)
      → IsValid v k
      → wait_pid v pid context k ≡ ok (c, k')
      → IsValid v k'
  unfolding wait_pid
  wait_pid-IsValid pid context c k k' valid e = elim (Option-cases (Kernel.get_exit_code v pid k)) [
    | inr (ret, known) ↦ let same : k ≡ k' = ground arith in subst (IsValid v) same valid
    | inl alive ↦ (await_exit-Next pid context c k k' valid (ground arith)).0
  ]
