-- ===== src/Syscall/Histories.antt =====
-- What the interrupt handlers do to the process manager is done by the calls of proc/mod.rs, beside
-- changes of the memory of processes, so any sequence of interrupts keeps what these keep.
use yat_sen_os.Prelude.{
  ℕ, ◌≡◌, ◌∙◌, ◌%◌, ◌^◌, sym, ap, subst, Bool, true, false, Option, ok, >>=_inv, ok_inj,
}
use yat_sen_os.X86.{X86}
use yat_sen_os.Proc.Context.{ProcessContext}
use yat_sen_os.Proc.Memory.{ProcessMemory}
use yat_sen_os.Proc.Kernel
use yat_sen_os.Proc.Kernel.{Kernel}
use yat_sen_os.Proc.Kernel.Sched.{IsValid}
use yat_sen_os.Proc.Calls
use yat_sen_os.Proc.Calls.Histories.{Step, Reach, Reach-IsValid, init-IsValid}
use yat_sen_os.Syscall.{Syscall, from}
use yat_sen_os.Syscall.Service
use yat_sen_os.Syscall.Service.{
  SyscallArgs, UserSpace, System, After, FirmwareTime, resumed, answered, sys_sem,
}
use yat_sen_os.Syscall.Dispatch.{serve, dispatcher}
use yat_sen_os.Syscall.Reaches.{
  one, to, resumed_inv, returning_inv, sys_sem-Reach, spawn-Reach, read-Reach, brk-Reach,
  kept-Reach, allocate-Reach, deallocate-Reach,
}
use yat_sen_os.Syscall.Interrupts.{
  Interrupt, clock, syscall, page_fault, serial, exception, exception_handler, noted,
  page_fault_handler, handle,
}

module _ (v : ProcessMemory) (u : UserSpace v) (x : X86) where
  serve-Reach :
      (now : Option FirmwareTime) (call : Syscall) (args : SyscallArgs) (context c : ProcessContext)
      (s s' : System v u)
      → serve v u x now call args context s ≡ ok (c, s')
      → Reach v s.kernel s'.kernel
  unfolding serve
  serve-Reach now Syscall.read args context c s s' e =
      let (ret, at, _) = returning_inv v u context (Service.sys_read v u args s) e in
      read-Reach v u x args ret s s' at
  serve-Reach now Syscall.write args context c s s' e =
      kept-Reach v u x s (Service.sys_write v u args s) (returning_inv v u context _ e).1
  serve-Reach now Syscall.brk args context c s s' e =
      let (ret, at, _) = returning_inv v u context (Service.sys_brk v u x args s) e in
      brk-Reach v u x args ret s s' at
  serve-Reach now Syscall.get_pid args context c s s' e =
      kept-Reach v u x s (Kernel.get_pid v s.kernel) (returning_inv v u context _ e).1
  serve-Reach now Syscall.sem args context c s s' e = sys_sem-Reach v u args context c s s' e
  serve-Reach now Syscall.fork args context c s s' e =
      one v u (Step.forked context c s.kernel s'.kernel (resumed_inv v u s _ e))
  serve-Reach now Syscall.spawn args context c s s' e =
      let (ret, at, _) = returning_inv v u context (Service.spawn_process v u args s) e in
      spawn-Reach v u args ret s s' at
  serve-Reach now Syscall.exit args context c s s' e =
      one v u (Step.exited args.arg0 context c s.kernel s'.kernel (resumed_inv v u s _ e))
  serve-Reach now Syscall.wait_pid args context c s s' e =
      one v u
        (Step.waited (args.arg0 % 2 ^ 16) context c s.kernel s'.kernel (resumed_inv v u s _ e))
  serve-Reach now Syscall.time args context c s s' e =
      kept-Reach v u x s (Service.sys_time now) (returning_inv v u context _ e).1
  serve-Reach now Syscall.list_app args context c s s' e =
      to v u s.kernel (ap (λ out. out.1) (ok_inj e)) Reach.here
  serve-Reach now Syscall.stat args context c s s' e =
      to v u s.kernel (ap (λ out. out.1) (ok_inj e)) Reach.here
  serve-Reach now Syscall.allocate args context c s s' e =
      let (ret, at, _) = returning_inv v u context (Service.sys_allocate v u args s) e in
      allocate-Reach v u x args ret s s' at
  serve-Reach now Syscall.deallocate args context c s s' e =
      let (s1, e1, at) = >>=_inv (Service.sys_deallocate v u args s) _ e in
      to v u s.kernel (ap (λ out. out.1) (ok_inj e1)) (deallocate-Reach v u x args s s1 at)
  serve-Reach now Syscall.unknown args context c s s' e =
      to v u s.kernel (ap (λ out. out.1) (ok_inj e)) Reach.here

  noted-same : (handled : Bool) (k k' : Kernel v) → noted v u x handled k ≡ ok k' → k ≡ k'
  unfolding noted
  noted-same true k k' e = ok_inj e
  noted-same false k k' e = ok_inj (>>=_inv (Kernel.current_proc v k) _ e).1

  page_fault-Reach :
      (addr : ℕ) (by_write : Bool) (context c : ProcessContext) (s s' : System v u)
      → page_fault_handler v u x addr by_write context s ≡ ok (c, s')
      → Reach v s.kernel s'.kernel
  unfolding page_fault_handler
  page_fault-Reach addr by_write context c s s' e =
      let ((handled, k), e1, at) = >>=_inv (Calls.handle_page_fault v addr by_write s.kernel) _ e in
      let (k', e2, at') = >>=_inv (noted v u x handled k) _ e1 in
      subst (Reach v s.kernel) (noted-same handled k k' at' ∙ ap (λ out. out.1.kernel) (ok_inj e2))
        (one v u (Step.faulted addr by_write handled s.kernel k at))

  -- Whatever interrupt enters the kernel, and whatever the process has in its registers: if the
  -- handler returns, then the process manager has gone through steps of Proc/Calls/Histories.antt: calls
  -- of proc/mod.rs that return, and changes of the memory of processes.
  pub handle-Reach :
      (i : Interrupt) (context c : ProcessContext) (s s' : System v u)
      → handle v u x i context s ≡ ok (c, s')
      → Reach v s.kernel s'.kernel
  unfolding handle dispatcher exception_handler
  handle-Reach clock context c s s' e =
      one v u (Step.switched context c s.kernel s'.kernel (resumed_inv v u s _ e))
  handle-Reach (syscall now) context c s s' e =
      serve-Reach now (from context.regs.rax) _ context c s s' e
  handle-Reach (page_fault addr by_write) context c s s' e =
      page_fault-Reach addr by_write context c s s' e
  handle-Reach (serial bytes) context c s s' e =
      to v u s.kernel (ap (λ out. out.1) (ok_inj e)) Reach.here
  handle-Reach (exception q) context c s s' e = absurd cc

  -- Between the interrupts a process runs, and changes registers and memory.
  pub data History (s : System v u) : System v u → Type 0 where
    start : History s s
    ran :
        {s' : System v u} (m : v.Machine)
        → History s s'
        → History s (record s' { kernel = record (s'.kernel) { machine = m } })
    interrupted :
        {s' s'' : System v u} (i : Interrupt) (context c : ProcessContext)
        → History s s'
        → handle v u x i context s' ≡ ok (c, s'')
        → History s s''

  History-IsValid : {s s' : System v u} → History s s' → IsValid v s.kernel → IsValid v s'.kernel
  History-IsValid start valid = valid
  History-IsValid (ran m h) valid = History-IsValid h valid
  History-IsValid (interrupted i context c h e) valid =
      Reach-IsValid v (handle-Reach i context c _ _ e) (History-IsValid h valid)

  -- After any sequence of interrupts whose handlers return, from a kernel that the initialisation of
  -- the process manager has made: only the current process runs, and every process that is ready
  -- stands in the ready queue or is the kernel process.
  pub boot-History-IsValid :
      (vm : v.Vm) (m : v.Machine) (s : System v u) {s' : System v u}
      → s.kernel ≡ Calls.init v vm m
      → History s s'
      → IsValid v s'.kernel
  boot-History-IsValid vm m s booted h =
      History-IsValid h (subst (IsValid v) (sym booted) (init-IsValid v vm m))
