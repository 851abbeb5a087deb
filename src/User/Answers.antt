-- ===== src/User/Answers.antt =====
-- What the wrappers of src/0x01/pkg/lib/src/syscall.rs answer when the kernel is entered by
-- `int 0x80`, for calls after which the same process goes on.
use yat_sen_os.Prelude.{
  ℕ, zero, suc, ◌%◌, ◌^◌, ◌<◌, ◌≡◌, ◌≢◌, refl, ap, Bool, true, false, not, Option, none, some, List,
  ◌==◌, if◌then◌else◌, Outcome, ok, ◌>>=◌, arith, Bool-cases, inl, inr,
}
use yat_sen_os.X86.{X86}
use yat_sen_os.Sync.Semaphore.{SemaphoreResult}
use yat_sen_os.Sync.SemaphoreSet
use yat_sen_os.Io.Resources.{minus_one, read-Fits}
use yat_sen_os.Io.Input.{Key}
use yat_sen_os.Proc.Context.{RegistersValue, StackFrame, set_rax}
use yat_sen_os.Proc.Memory.{ProcessMemory}
use yat_sen_os.Proc.Kernel
use yat_sen_os.Proc.Data
use yat_sen_os.Proc.Data.{ProcessData}
use yat_sen_os.Proc.Calls
use yat_sen_os.Syscall.{from, number}
use yat_sen_os.Syscall.Service
use yat_sen_os.Syscall.Service.{UserSpace, System, FirmwareTime, answered, resumed}
use yat_sen_os.Syscall.Dispatch.{dispatcher, serve, returning}
use yat_sen_os.User.Calls as Wrappers

as_usize-zero : (v : ProcessMemory) (b : Bool) → (Calls.as_usize v b == 0) ≡ not b
as_usize-zero v true = refl
as_usize-zero v false = refl

-- A count is -1, or small enough to be no negative number.
read-count :
    (fd len : ℕ) (input : List Key) (d : ProcessData)
    → len < 2 ^ 63
    → Wrappers.non_negative (Data.read fd len input d).0 ≡ (
        if (Data.read fd len input d).0 == minus_one
        then none
        else some (Data.read fd len input d).0)
unfolding Wrappers.non_negative Data.read
read-count fd len input d small = elim (read-Fits fd len input d.resources) [
  | inl (failed, _, _) ↦ rw failed refl
  | inr (count, fits) ↦ ground arith
]

brk-decoded :
    (v : ProcessMemory) (u : UserSpace v) (answer : Option ℕ)
    → answer ≢ some Wrappers.brk_failed
    → Wrappers.brk_answer (Service.end_or_failed v u answer) ≡ answer
unfolding Wrappers.brk_answer
brk-decoded v u none low = refl
brk-decoded v u (some e) low =
    let other : (e == Wrappers.brk_failed) ≡ false = elim (Bool-cases (e == Wrappers.brk_failed)) [
      | inl same ↦ absurd (low (ap some (ground arith)))
      | inr differs ↦ differs
    ] in
    rw other refl

module _ (v : ProcessMemory) (u : UserSpace v) (x : X86) where
  requested :
      (addr : ℕ)
      → addr ≢ 0
      → x.virt_addr addr ≡ ok addr
      → Service.requested_end v u x addr ≡ ok (some addr)
  unfolding Service.requested_end
  requested zero there canonical = absurd (there refl)
  requested (suc n) there canonical = rw canonical refl

module _ (v : ProcessMemory) (u : UserSpace v) (x : X86) (now : Option FirmwareTime)
    (frame : StackFrame) where
  unfoldable pub trap : RegistersValue → System v u → Outcome (ℕ × System v u)
  trap regs s = do
    (c, s') ← dispatcher v u x now (record { regs = regs; stack_frame = frame }) s
    ok (c.regs.rax, s')

  module _ (regs : RegistersValue) (s : System v u) (r : ℕ) (d : ProcessData)
      (has_data : Calls.current_data v s.kernel ≡ ok (r, d)) where
    abbrev pub with_semaphores : SemaphoreSet.SemaphoreSet → System v u
    with_semaphores sems = record s { kernel = Calls.store_semaphores v r sems s.kernel }

    -- `sys_new_sem` answers `false` where it has made the semaphore, and `true` where there was one of
    -- that key already.
    pub sys_new_sem-answer :
        (key value : ℕ)
        → key < 2 ^ 32
        → Wrappers.sys_new_sem trap regs key value s
          ≡ ok (
            not (SemaphoreSet.insert key value d.semaphores).0,
            with_semaphores (SemaphoreSet.insert key value d.semaphores).1,
          )
    unfolding Wrappers.sys_new_sem trap dispatcher serve from number Service.sys_sem answered
        Calls.sem_init set_rax
    sys_new_sem-answer key value small =
        let narrow : key % 2 ^ 32 ≡ key = omega arith in
        rw (narrow, has_data)
          (ap (λ (b : Bool). ok (b, with_semaphores (SemaphoreSet.insert key value d.semaphores).1))
            (as_usize-zero v (SemaphoreSet.insert key value d.semaphores).0))

    -- `sys_remove_sem` answers `false` where it has removed the semaphore, and `true` where there was
    -- none of that key.
    pub sys_remove_sem-answer :
        (key : ℕ)
        → key < 2 ^ 32
        → Wrappers.sys_remove_sem trap regs key s
          ≡ ok (
            not (SemaphoreSet.remove key d.semaphores).0,
            with_semaphores (SemaphoreSet.remove key d.semaphores).1,
          )
    unfolding Wrappers.sys_remove_sem trap dispatcher serve from number Service.sys_sem answered
        Calls.sem_remove set_rax
    sys_remove_sem-answer key small =
        let narrow : key % 2 ^ 32 ≡ key = omega arith in
        rw (narrow, has_data)
          (ap (λ (b : Bool). ok (b, with_semaphores (SemaphoreSet.remove key d.semaphores).1))
            (as_usize-zero v (SemaphoreSet.remove key d.semaphores).0))

    -- `sys_sem_signal` answers `false` where it has woken a process that waited for the semaphore.
    pub sys_sem_signal-woken :
        (key pid : ℕ)
        → key < 2 ^ 32
        → (SemaphoreSet.signal key d.semaphores).0 ≡ SemaphoreResult.wake_up pid
        → Wrappers.sys_sem_signal trap regs key s
          ≡ ok (
            false,
            record s {
              kernel =
                  Kernel.wake_up v pid none
                    (with_semaphores (SemaphoreSet.signal key d.semaphores).1).kernel;
            },
          )
    unfolding Wrappers.sys_sem_signal trap dispatcher serve from number Service.sys_sem resumed
        Calls.sem_signal set_rax
    sys_sem_signal-woken key pid small wakes =
        let narrow : key % 2 ^ 32 ≡ key = omega arith in
        rw (narrow, has_data) (rw (wakes, Calls.after_signal) refl)

    -- `sys_read` answers `None` exactly where the kernel's read answers -1, and the count of the bytes
    -- read else; these are in the buffer.
    pub sys_read-answer :
        (fd buf len : ℕ)
        → fd < 2 ^ 8
        → len < 2 ^ 63
        → let (count, written, rest) = Data.read fd len s.input d in
          Wrappers.sys_read trap regs fd buf len s
          ≡ ok (
            if count == minus_one then none else some count,
            record s {
              input = rest;
              kernel = record (s.kernel) { machine = u.store buf written s.kernel.machine };
            },
          )
    unfolding Wrappers.sys_read trap dispatcher serve from number Service.sys_read returning
        Calls.read set_rax
    sys_read-answer fd buf len narrow small =
        let narrow' : fd % 2 ^ 8 ≡ fd = omega arith in
        let after : System v u = record s {
          input = (Data.read fd len s.input d).2;
          kernel = record (s.kernel) {
            machine = u.store buf (Data.read fd len s.input d).1 s.kernel.machine;
          };
        } in
        rw (narrow', has_data)
          (ap (λ (o : Option ℕ). ok (o, after)) (read-count fd len s.input d small))

  -- `sys_brk` of an address answers what the kernel's `brk` answers, where that is not the highest
  -- address of all.
  pub sys_brk-answer :
      (regs : RegistersValue) (s : System v u) (addr : ℕ) (answer : Option ℕ) (k : Kernel.Kernel v)
      → addr ≢ 0
      → x.virt_addr addr ≡ ok addr
      → Calls.brk v (some addr) s.kernel ≡ ok (answer, k)
      → answer ≢ some Wrappers.brk_failed
      → Wrappers.sys_brk trap regs (some addr) s ≡ ok (answer, record s { kernel = k })
  unfolding Wrappers.sys_brk trap dispatcher serve from number Service.sys_brk returning set_rax
  sys_brk-answer regs s addr answer k there canonical call low =
      rw (requested v u x addr there canonical) (
        rw call
          (ap (λ (o : Option ℕ). ok (o, record s { kernel = k })) (brk-decoded v u answer low)))
