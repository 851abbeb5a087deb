-- ===== src/Proc/Calls/Permits.antt =====
-- The semaphore calls, the page fault and `brk` keep the schedule.
use yat_sen_os.Prelude.{
  ℕ, ◌≡◌, refl, sym, subst, ap, ◌∙◌, Bool, true, false, Option, some, none, arith, ok, ok_inj,
  >>=_inv, unwrap,
}
use yat_sen_os.Sync.Semaphore.{SemaphoreResult}
use yat_sen_os.Sync.Semaphore
use yat_sen_os.Sync.SemaphoreSet
use yat_sen_os.Sync.SemaphoreSet.{SemaphoreSet}
use yat_sen_os.Proc.Context.{ProcessContext}
use yat_sen_os.Proc.Memory.{ProcessMemory}
use yat_sen_os.Proc.Process.{ProcessInner}
use yat_sen_os.Proc.Kernel
use yat_sen_os.Proc.Kernel.{Kernel, current_proc, get_pid, save_current}
use yat_sen_os.Proc.Kernel.Sched.{Sched, Queued, IsValid}
use yat_sen_os.Proc.Kernel.Moves.{write_proc-same}
use yat_sen_os.Proc.Kernel.Waking.{wake_up-Sched, wake_up-current}
use yat_sen_os.Proc.Calls.{
  sem_init, sem_remove, sem_wait, after_wait, sem_signal, after_signal, current_data,
  store_semaphores, handle_page_fault, brk,
}
use yat_sen_os.Proc.Calls.Schedule.{go_next-Next, save-block, get_pid_inv}

-- `wait` blocks the process that calls it, and no other.
wait-block :
    (key pid other : ℕ) (s : SemaphoreSet)
    → (SemaphoreSet.wait key pid s).0 ≡ SemaphoreResult.block other
    → other ≡ pid
unfolding SemaphoreSet.wait Semaphore.wait
wait-block key pid other s e = ground arith

module _ (v : ProcessMemory) where
  pub sem_init-IsValid :
      (key value ret : ℕ) (k k' : Kernel v)
      → IsValid v k
      → sem_init v key value k ≡ ok (ret, k')
      → IsValid v k'
  unfolding sem_init store_semaphores
  sem_init-IsValid key value ret k k' valid e =
      subst (λ out. IsValid v out.1) (ok_inj (>>=_inv (current_data v k) _ e).1) valid

  pub sem_remove-IsValid :
      (key ret : ℕ) (k k' : Kernel v)
      → IsValid v k
      → sem_remove v key k ≡ ok (ret, k')
      → IsValid v k'
  unfolding sem_remove store_semaphores
  sem_remove-IsValid key ret k k' valid e =
      subst (λ out. IsValid v out.1) (ok_inj (>>=_inv (current_data v k) _ e).1) valid

  after_wait-IsValid :
      (result : SemaphoreResult) (context c : ProcessContext) (k k' : Kernel v)
      → IsValid v k
      → ((pid : ℕ) → result ≡ SemaphoreResult.block pid → pid ≡ k.current)
      → after_wait v result context k ≡ ok (c, k')
      → IsValid v k'
  unfolding after_wait
  after_wait-IsValid SemaphoreResult.ok context c k k' valid own e =
      subst (λ out. IsValid v out.1) (ok_inj e) valid
  after_wait-IsValid SemaphoreResult.not_exist context c k k' valid own e =
      subst (λ out. IsValid v out.1) (ok_inj e) valid
  after_wait-IsValid (SemaphoreResult.wake_up pid) context c k k' valid own e = cc
  after_wait-IsValid (SemaphoreResult.block pid) context c k k' valid own e =
      let (saved, e1, at) = >>=_inv (save_current v context k) _ e in
      (go_next-Next v context c (Kernel.block v pid saved) k'
        (save-block v pid context k saved valid (own pid refl) at) e1).0

  pub sem_wait-IsValid :
      (key : ℕ) (context c : ProcessContext) (k k' : Kernel v)
      → IsValid v k
      → sem_wait v key context k ≡ ok (c, k')
      → IsValid v k'
  unfolding sem_wait store_semaphores
  sem_wait-IsValid key context c k k' valid e =
      let (pid, e1, at) = >>=_inv (get_pid v k) _ e in
      let ((r, d), e2, _) = >>=_inv (current_data v k) _ e1 in
      after_wait-IsValid (SemaphoreSet.wait key pid d.semaphores).0 context c
        (store_semaphores v r (SemaphoreSet.wait key pid d.semaphores).1 k) k' valid
        (λ other blocks. wait-block key pid other d.semaphores blocks ∙ get_pid_inv v k pid at) e2

  after_signal-IsValid :
      (result : SemaphoreResult) (context c : ProcessContext) (k k' : Kernel v)
      → IsValid v k
      → after_signal v result context k ≡ ok (c, k')
      → IsValid v k'
  unfolding after_signal
  after_signal-IsValid SemaphoreResult.ok context c k k' valid e =
      subst (λ out. IsValid v out.1) (ok_inj e) valid
  after_signal-IsValid SemaphoreResult.not_exist context c k k' valid e =
      subst (λ out. IsValid v out.1) (ok_inj e) valid
  after_signal-IsValid (SemaphoreResult.block pid) context c k k' valid e = cc
  after_signal-IsValid (SemaphoreResult.wake_up pid) context c k k' valid e =
      subst (λ out. IsValid v out.1) (ok_inj e)
        (subst
          (λ r.
            Sched v (λ q. q ≡ r) (Queued v (Kernel.wake_up v pid none k))
              (Kernel.wake_up v pid none k))
          (sym (wake_up-current v pid none k)) (wake_up-Sched v pid none k valid))

  pub sem_signal-IsValid :
      (key : ℕ) (context c : ProcessContext) (k k' : Kernel v)
      → IsValid v k
      → sem_signal v key context k ≡ ok (c, k')
      → IsValid v k'
  unfolding sem_signal store_semaphores
  sem_signal-IsValid key context c k k' valid e =
      let ((r, d), e1, _) = >>=_inv (current_data v k) _ e in
      after_signal-IsValid (SemaphoreSet.signal key d.semaphores).0 context c
        (store_semaphores v r (SemaphoreSet.signal key d.semaphores).1 k) k' valid e1

  pub handle_page_fault-IsValid :
      (addr : ℕ) (by_write handled : Bool) (k k' : Kernel v)
      → IsValid v k
      → handle_page_fault v addr by_write k ≡ ok (handled, k')
      → IsValid v k'
  unfolding handle_page_fault
  handle_page_fault-IsValid addr false handled k k' valid e =
      subst (λ out. IsValid v out.1) (ok_inj e) valid
  handle_page_fault-IsValid addr true handled k k' valid e =
      let ((pid, p), e1, _) = >>=_inv (current_proc v k) _ e in
      let (vm, e2, _) = >>=_inv (unwrap p.proc_vm) _ e1 in
      let ((ok', vm', m), e3, _) = >>=_inv (v.handle_page_fault addr vm k.machine) _ e2 in
      let store : ProcessInner v → ProcessInner v = λ q. record q { proc_vm = some vm' } in
      let written : Kernel v = Kernel.write_proc v pid store (record k { machine = m }) in
      let same : written ≡ k' = ap (λ out. out.1) (ok_inj e3) in
      subst (IsValid v) same (
        unfold Kernel.write_proc in
        write_proc-same v pid store (record k { machine = m }) (λ q. refl) valid)

  pub brk-IsValid :
      (addr answer : Option ℕ) (k k' : Kernel v)
      → IsValid v k
      → brk v addr k ≡ ok (answer, k')
      → IsValid v k'
  unfolding brk
  brk-IsValid addr answer k k' valid e =
      let ((pid, p), e1, _) = >>=_inv (current_proc v k) _ e in
      let (vm, e2, _) = >>=_inv (unwrap p.proc_vm) _ e1 in
      let ((a, m), e3, _) = >>=_inv (v.brk pid addr vm k.machine) _ e2 in
      subst (λ out. IsValid v out.1) (ok_inj e3) valid
