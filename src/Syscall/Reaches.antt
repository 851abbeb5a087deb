-- ===== src/Syscall/Reaches.antt =====
-- What the services do to the process manager is done by the calls of proc/mod.rs.
use yat_sen_os.Prelude.{
  ℕ, arith, ◌≡◌, ◌∙◌, ◌%◌, ◌^◌, sym, ap, subst, Option, some, none, List, Outcome, ok, >>=_inv,
  ok_inj, inl, inr, Bool-cases, ◌==◌,
}
use yat_sen_os.X86.{X86}
use yat_sen_os.Proc.Context.{ProcessContext, set_rax}
use yat_sen_os.Proc.Memory.{ProcessMemory}
use yat_sen_os.Proc.Kernel.{Kernel}
use yat_sen_os.Proc.Calls
use yat_sen_os.Proc.Calls.Histories.{Step, Reach}
use yat_sen_os.Syscall.Service
use yat_sen_os.Syscall.Service.{
  SyscallArgs, UserSpace, System, After, FirmwareTime, resumed, answered, sys_sem,
}
use yat_sen_os.Syscall.Dispatch.{returning, alongside}

module _ (v : ProcessMemory) (u : UserSpace v) where
  pub one : {k k' : Kernel v} → Step v k k' → Reach v k k'
  one st = Reach.next Reach.here st

  -- The kernel of a system that is known by an equation.
  pub to : {s s' : System v u} (k : Kernel v) → s ≡ s' → Reach v k s.kernel → Reach v k s'.kernel
  to k e r = subst (λ (t : System v u). Reach v k t.kernel) e r

  pub resumed_inv :
      (s : System v u) {s' : System v u} {c : ProcessContext}
      (call : Outcome (ProcessContext × Kernel v))
      → resumed v u s call ≡ ok (c, s')
      → call ≡ ok (c, s'.kernel)
  unfolding resumed
  resumed_inv s call e =
      let ((c', k), e', at) = >>=_inv call _ e in
      at ∙ ap (λ out. ok (out.0, out.1.kernel)) (ok_inj e')

  pub answered_inv :
      (s : System v u) (context : ProcessContext) {s' : System v u} {c : ProcessContext}
      (call : Outcome (ℕ × Kernel v))
      → answered v u s context call ≡ ok (c, s')
      → (ret : ℕ) × (call ≡ ok (ret, s'.kernel))
  unfolding answered
  answered_inv s context call e =
      let ((ret, k), e', at) = >>=_inv call _ e in
      (ret, at ∙ ap (λ out. ok (ret, out.1.kernel)) (ok_inj e'))

  pub returning_inv :
      (context : ProcessContext) {s' : System v u} {c : ProcessContext}
      (call : Outcome (ℕ × System v u))
      → returning v u context call ≡ ok (c, s')
      → (ret : ℕ) × (call ≡ ok (ret, s')) × (c ≡ set_rax ret context)
  unfolding returning
  returning_inv context call e =
      let ((ret, s), e', at) = >>=_inv call _ e in
      (ret, at ∙ ap (λ out. ok (ret, out.1)) (ok_inj e'), sym (ap (λ out. out.0) (ok_inj e')))

  -- The four operations on a semaphore, by their number.
  pub sys_sem-Reach :
      (args : SyscallArgs) (context c : ProcessContext) (s s' : System v u)
      → sys_sem v u args context s ≡ ok (c, s')
      → Reach v s.kernel s'.kernel
  unfolding sys_sem
  sys_sem-Reach args context c s s' e =
      let key : ℕ = args.arg1 % 2 ^ 32 in
      elim (Bool-cases (args.arg0 == 0)) [
        | inl op ↦
            let (ret, at) =
              answered_inv s context (Calls.sem_init v key args.arg2 s.kernel) (rw op at e) in
            one (Step.sem_made key args.arg2 ret s.kernel s'.kernel at)
        | inr op0 ↦ elim (Bool-cases (args.arg0 == 1)) [
          | inl op ↦
              let (ret, at) =
                answered_inv s context (Calls.sem_remove v key s.kernel) (rw (op0, op) at e) in
              one (Step.sem_removed key ret s.kernel s'.kernel at)
          | inr op1 ↦ elim (Bool-cases (args.arg0 == 2)) [
            | inl op ↦ one (
                Step.sem_signalled key context c s.kernel s'.kernel (
                  resumed_inv s (Calls.sem_signal v key context s.kernel) (rw (op0, op1, op) at e)))
            | inr op2 ↦ elim (Bool-cases (args.arg0 == 3)) [
              | inl op ↦ one (
                  Step.sem_waited key context c s.kernel s'.kernel (
                    resumed_inv s (Calls.sem_wait v key context s.kernel)
                      (rw (op0, op1, op2, op) at e)))
              | inr op3 ↦
                  let plain : ok (set_rax Service.usize_max context, s) ≡ ok (c, s') =
                    rw (op0, op1, op2, op3) at e in
                  to s.kernel (ap (λ out. out.1) (ok_inj plain)) Reach.here
            ]
          ]
        ]
      ]

  launch-Reach :
      (app : Option v.ElfFile) (name : List ℕ) (answer : Option ℕ) (s s' : System v u)
      → Service.launch v u app name s ≡ ok (answer, s')
      → Reach v s.kernel s'.kernel
  unfolding Service.launch
  launch-Reach none name answer s s' e = to s.kernel (ap (λ out. out.1) (ok_inj e)) Reach.here
  launch-Reach (some elf) name answer s s' e =
      let ((pid, k), e1, at) = >>=_inv (Calls.elf_spawn v s.selectors elf name s.kernel) _ e in
      to s.kernel (ap (λ out. out.1) (ok_inj e1))
        (one (Step.spawned s.selectors elf name pid s.kernel k at))

  pub spawn-Reach :
      (args : SyscallArgs) (ret : ℕ) (s s' : System v u)
      → Service.spawn_process v u args s ≡ ok (ret, s')
      → Reach v s.kernel s'.kernel
  unfolding Service.spawn_process
  spawn-Reach args ret s s' e =
      let name = u.bytes args.arg0 args.arg1 s.kernel.machine in
      let ((answer, s1), e1, at) = >>=_inv (Service.spawn_app v u name s) _ e in
      to s.kernel (ap (λ out. out.1) (ok_inj e1)) (
        launch-Reach (Service.listed_app v u name s.app_list) name answer s s1
          (unfold Service.spawn_app in at))

module _ (v : ProcessMemory) (u : UserSpace v) (x : X86) where
  pub read-Reach :
      (args : SyscallArgs) (ret : ℕ) (s s' : System v u)
      → Service.sys_read v u args s ≡ ok (ret, s')
      → Reach v s.kernel s'.kernel
  unfolding Service.sys_read
  read-Reach args ret s s' e =
      let ((n, written, rest), e1, at) =
        >>=_inv (Calls.read v (args.arg0 % 2 ^ 8) args.arg2 s.input s.kernel) _ e in
      to v u s.kernel (ap (λ out. out.1) (ok_inj e1))
        (one v u (Step.stored (u.store args.arg1 written s.kernel.machine) s.kernel))

  pub brk-Reach :
      (args : SyscallArgs) (ret : ℕ) (s s' : System v u)
      → Service.sys_brk v u x args s ≡ ok (ret, s')
      → Reach v s.kernel s'.kernel
  unfolding Service.sys_brk
  brk-Reach args ret s s' e =
      let (requested, e1, _) = >>=_inv (Service.requested_end v u x args.arg0) _ e in
      let ((answer, k), e2, at) = >>=_inv (Calls.brk v requested s.kernel) _ e1 in
      to v u s.kernel (ap (λ out. out.1) (ok_inj e2))
        (one v u (Step.moved requested answer s.kernel k at))

  -- A service that answers a number and leaves the system.
  pub kept-Reach :
      (s : System v u) {s' : System v u} {ret : ℕ} (m : Outcome ℕ)
      → alongside v u s m ≡ ok (ret, s')
      → Reach v s.kernel s'.kernel
  kept-Reach s m e =
      let (n, e1, _) = >>=_inv m _ e in to v u s.kernel (ap (λ out. out.1) (ok_inj e1)) Reach.here

  granted :
      (layout : Service.Layout) (s : System v u) → s.kernel ≡ (Service.grant v u layout s).1.kernel
  unfolding Service.allocated
  granted layout s = ground arith

  given_back :
      (ptr : ℕ) (layout : Service.Layout) (s : System v u)
      → s.kernel ≡ (Service.give_back v u ptr layout s).kernel
  given_back ptr layout s = ground arith

  pub allocate-Reach :
      (args : SyscallArgs) (ret : ℕ) (s s' : System v u)
      → Service.sys_allocate v u args s ≡ ok (ret, s')
      → Reach v s.kernel s'.kernel
  unfolding Service.sys_allocate
  allocate-Reach args ret s s' e =
      let (layout, e1, _) = >>=_inv (Service.layout_ref v u args.arg0 s) _ e in
      subst (Reach v s.kernel) (granted layout s ∙ ap (λ out. out.1.kernel) (ok_inj e1)) Reach.here

  pub deallocate-Reach :
      (args : SyscallArgs) (s s' : System v u)
      → Service.sys_deallocate v u args s ≡ ok s'
      → Reach v s.kernel s'.kernel
  unfolding Service.sys_deallocate
  deallocate-Reach args s s' e =
      let (layout, e1, _) = >>=_inv (Service.layout_ref v u args.arg1 s) _ e in
      subst (Reach v s.kernel) (given_back args.arg0 layout s ∙ ap (λ t. t.kernel) (ok_inj e1))
        Reach.here
