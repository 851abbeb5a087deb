-- ===== src/Syscall/Registers.antt =====
-- What a system call does to the registers of the process that makes it.
use yat_sen_os.Prelude.{
  ℕ, ◌≡◌, ◌≢◌, refl, sym, ap, ◌∙◌, Bool, true, false, Option, Outcome, ok, ok_inj, >>=_inv, arith,
}
use yat_sen_os.X86.{X86}
use yat_sen_os.Proc.Context.{ProcessContext, set_rax}
use yat_sen_os.Proc.Memory.{ProcessMemory}
use yat_sen_os.Syscall.{Syscall, from, number}
use yat_sen_os.Syscall.Service
use yat_sen_os.Syscall.Service.{SyscallArgs, UserSpace, System, FirmwareTime}
use yat_sen_os.Syscall.Dispatch.{serve, dispatcher, returning}
use yat_sen_os.Syscall.Reaches.{returning_inv}

-- The calls that may give the processor to another process.
abbrev pub may_switch : Syscall → Bool
may_switch Syscall.exit = true
may_switch Syscall.wait_pid = true
may_switch Syscall.fork = true
may_switch Syscall.sem = true
may_switch _ = false

module _ (v : ProcessMemory) (u : UserSpace v) (x : X86) where
  set_rax_self :
      (ret : ℕ) (context c : ProcessContext)
      → c ≡ set_rax ret context
      → c ≡ set_rax c.regs.rax context
  unfolding set_rax
  set_rax_self ret context c e = e ∙ ap (λ (t : ProcessContext). set_rax t.regs.rax context) (sym e)

  same :
      (context c : ProcessContext) (s s' : System v u)
      → ◌≡◌ {A = Outcome (ProcessContext × System v u)} (ok (context, s)) (ok (c, s'))
      → c ≡ set_rax c.regs.rax context
  unfolding set_rax
  same context c s s' e =
      sym (ap (λ out. out.0) (ok_inj e))
      ∙ ap (λ (t : ProcessContext). set_rax t.regs.rax context) (ap (λ out. out.0) (ok_inj e))

  kept :
      (context c : ProcessContext) (s' : System v u) (call : Outcome (ℕ × System v u))
      → returning v u context call ≡ ok (c, s')
      → c ≡ set_rax c.regs.rax context
  kept context c s' call e =
      let (ret, _, made) = returning_inv v u context call e in set_rax_self ret context c made

  serve-registers :
      (now : Option FirmwareTime) (call : Syscall) (args : SyscallArgs) (context c : ProcessContext)
      (s s' : System v u)
      → may_switch call ≡ false
      → serve v u x now call args context s ≡ ok (c, s')
      → c ≡ set_rax c.regs.rax context
  unfolding serve
  serve-registers now Syscall.exit args context c s s' stays e = cc
  serve-registers now Syscall.wait_pid args context c s s' stays e = cc
  serve-registers now Syscall.fork args context c s s' stays e = cc
  serve-registers now Syscall.sem args context c s s' stays e = cc
  serve-registers now Syscall.stat args context c s s' stays e = same context c s s' e
  serve-registers now Syscall.list_app args context c s s' stays e = same context c s s' e
  serve-registers now Syscall.unknown args context c s s' stays e = same context c s s' e
  serve-registers now Syscall.deallocate args context c s s' stays e =
      let (s1, e1, at) = >>=_inv (Service.sys_deallocate v u args s) _ e in same context c s1 s' e1
  serve-registers now Syscall.read args context c s s' stays e = kept context c s' _ e
  serve-registers now Syscall.write args context c s s' stays e = kept context c s' _ e
  serve-registers now Syscall.brk args context c s s' stays e = kept context c s' _ e
  serve-registers now Syscall.get_pid args context c s s' stays e = kept context c s' _ e
  serve-registers now Syscall.spawn args context c s s' stays e = kept context c s' _ e
  serve-registers now Syscall.time args context c s s' stays e = kept context c s' _ e
  serve-registers now Syscall.allocate args context c s s' stays e = kept context c s' _ e

  -- A system call that returns, and is not one of exit, wait_pid, fork and sem, changes no register of
  -- the process but `rax`, and nothing of its interrupt frame.
  pub dispatcher-registers :
      (now : Option FirmwareTime) (context c : ProcessContext) (s s' : System v u)
      → may_switch (from context.regs.rax) ≡ false
      → dispatcher v u x now context s ≡ ok (c, s')
      → c ≡ set_rax c.regs.rax context
  unfolding dispatcher
  dispatcher-registers now context c s s' stays e =
      serve-registers now (from context.regs.rax) _ context c s s' stays e

  from-unknown : (n : ℕ) → ((s : Syscall) → n ≢ number s) → from n ≡ Syscall.unknown
  unfolding from number
  from-unknown n none_of = ground (
    arith,
    none_of Syscall.read,
    none_of Syscall.write,
    none_of Syscall.brk,
    none_of Syscall.get_pid,
    none_of Syscall.sem,
    none_of Syscall.fork,
    none_of Syscall.spawn,
    none_of Syscall.exit,
    none_of Syscall.wait_pid,
    none_of Syscall.time,
    none_of Syscall.list_app,
    none_of Syscall.stat,
    none_of Syscall.allocate,
    none_of Syscall.deallocate,
  )

  -- A number that the user library passes for no call changes nothing.
  pub dispatcher-unknown :
      (now : Option FirmwareTime) (context : ProcessContext) (s : System v u)
      → ((call : Syscall) → context.regs.rax ≢ number call)
      → dispatcher v u x now context s ≡ ok (context, s)
  unfolding dispatcher
  dispatcher-unknown now context s none_of =
      rw (from-unknown context.regs.rax none_of) (unfold serve in refl)
