-- ===== src/Syscall/Dispatch.antt =====
-- `dispatcher` of src/0x01/pkg/kernel/src/interrupt/syscall/mod.rs.
use yat_sen_os.Prelude.{ℕ, ◌%◌, ◌^◌, Option, Outcome, ok, ◌>>=◌}
use yat_sen_os.X86.{X86}
use yat_sen_os.Proc.Context.{ProcessContext, set_rax}
use yat_sen_os.Proc.Memory.{ProcessMemory}
use yat_sen_os.Proc.Kernel
use yat_sen_os.Proc.Calls
use yat_sen_os.Syscall.{Syscall, from}
use yat_sen_os.Syscall.Service
use yat_sen_os.Syscall.Service.{
  SyscallArgs, UserSpace, System, After, FirmwareTime, resumed, sys_sem,
}

module _ (v : ProcessMemory) (u : UserSpace v) where
  -- `context.set_rax(..)` with what a service answers.
  unfoldable pub returning : ProcessContext → Outcome (ℕ × System v u) → After v u
  returning context call = do (ret, s) ← call; ok (set_rax ret context, s)

  -- A service that leaves the system alone.
  abbrev pub alongside : System v u → Outcome ℕ → Outcome (ℕ × System v u)
  alongside s call = do ret ← call; ok (ret, s)

module _ (v : ProcessMemory) (u : UserSpace v) (x : X86) where
  -- The services, with the time that the firmware would tell. Listing processes or programs prints.
  unfoldable pub serve :
      Option FirmwareTime → Syscall → SyscallArgs → ProcessContext → System v u → After v u
  unfolding returning
  serve now Syscall.read args context s = returning v u context (Service.sys_read v u args s)
  serve now Syscall.write args context s =
      returning v u context (alongside v u s (Service.sys_write v u args s))
  serve now Syscall.get_pid args context s =
      returning v u context (alongside v u s (Kernel.get_pid v s.kernel))
  serve now Syscall.spawn args context s = returning v u context (Service.spawn_process v u args s)
  serve now Syscall.exit args context s =
      resumed v u s (Calls.process_exit v args.arg0 context s.kernel)
  serve now Syscall.wait_pid args context s =
      resumed v u s (Calls.wait_pid v (args.arg0 % 2 ^ 16) context s.kernel)
  serve now Syscall.stat args context s = ok (context, s)
  serve now Syscall.list_app args context s = ok (context, s)
  serve now Syscall.fork args context s = resumed v u s (Calls.fork v context s.kernel)
  serve now Syscall.sem args context s = sys_sem v u args context s
  serve now Syscall.time args context s =
      returning v u context (alongside v u s (Service.sys_time now))
  serve now Syscall.brk args context s = returning v u context (Service.sys_brk v u x args s)
  serve now Syscall.allocate args context s =
      returning v u context (Service.sys_allocate v u args s)
  serve now Syscall.deallocate args context s = do
    s' ← Service.sys_deallocate v u args s
    ok (context, s')
  serve now Syscall.unknown args context s = ok (context, s)

  unfoldable pub dispatcher : Option FirmwareTime → ProcessContext → System v u → After v u
  unfolding serve
  dispatcher now context s =
      let args : SyscallArgs = record {
        syscall = from context.regs.rax;
        arg0 = context.regs.rdi;
        arg1 = context.regs.rsi;
        arg2 = context.regs.rdx;
      } in
      serve now args.syscall args context s
