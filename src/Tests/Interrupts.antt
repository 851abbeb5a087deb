-- ===== src/Tests/Interrupts.antt =====
-- System calls and interrupts, with memories that are numbers.
use yat_sen_os.Prelude.{
  ℕ, ◌+◌, ◌≡◌, ◌≢◌, ◌↔◌, refl, false, some, none, [], ◌∷◌, not, ok, okay, if◌then◌else◌, ◌==◌,
  arith,
}
use yat_sen_os.BTreeMap.{get}
use yat_sen_os.X86.Flat.{flat}
use yat_sen_os.Sync.Semaphore.{SemaphoreResult}
use yat_sen_os.Sync.Semaphore
use yat_sen_os.Sync.SemaphoreSet
use yat_sen_os.Io.Resources.{minus_one}
use yat_sen_os.Proc.Context.{ProcessContext, set_rax}
use yat_sen_os.Proc.Data
use yat_sen_os.Proc.Data.{ProcessData}
use yat_sen_os.Proc.Kernel
use yat_sen_os.Proc.Kernel.{Kernel}
use yat_sen_os.Proc.Kernel.Sched.{IsValid}
use yat_sen_os.Proc.Calls
use yat_sen_os.Proc.Calls.Histories.{Reach}
use yat_sen_os.Syscall.{Syscall, from, from-eq_iff, number}
use yat_sen_os.Syscall.Service.{UserSpace, System, resumed}
use yat_sen_os.Syscall.Dispatch.{dispatcher, serve, returning}
use yat_sen_os.Syscall.Interrupts.{clock, handle}
use yat_sen_os.Syscall.Histories.{History, boot-History-IsValid, handle-Reach}
use yat_sen_os.Syscall.Registers.{dispatcher-registers, dispatcher-unknown}
use yat_sen_os.User.Answers
use yat_sen_os.User.Calls as Wrappers
use yat_sen_os.Tests.Scheduling.{memory, context, first, interrupted, second, timer}

abbrev user : UserSpace memory
user = record {
  bytes = λ ptr len m. [];
  store = λ ptr written m. m;
  layout_at = λ ptr m. record { size = 16; align = 8 };
  Allocator = ℕ;
  allocate_first_fit = λ layout a. (okay a, a + layout.size);
  deallocate = λ ptr layout a. a;
}

abbrev system : Kernel memory → System memory user
system k = record {
  kernel = k;
  input = [];
  allocator = 0x4000_0000_0000;
  app_list = none;
  selectors = record { user_code_selector = 0x2B; user_data_selector = 0x33 };
}

abbrev boot : System memory user
boot = system (Calls.init memory 3 0)

ticks : handle memory user flat clock interrupted boot ≡ ok (interrupted, system second)
unfolding handle resumed
ticks = rw timer refl

boot-History-IsValid_example : IsValid memory second
boot-History-IsValid_example =
    boot-History-IsValid memory user flat 3 0 boot {s' = system second} refl
      (History.interrupted clock interrupted interrupted History.start ticks)

handle-Reach_run : Reach memory (Calls.init memory 3 0) second
handle-Reach_run =
    handle-Reach memory user flat clock interrupted interrupted boot (system second) ticks

from-eq_iff_run : (from 41 ≡ Syscall.sem) ↔ (41 ≡ number Syscall.sem)
from-eq_iff_run = from-eq_iff 41 Syscall.sem (λ e. cc)

abbrev call : ℕ → ProcessContext
call rax = set_rax rax context

gets : dispatcher memory user flat none (call 39) (system first) ≡ ok (call 1, system first)
unfolding dispatcher serve returning from Kernel.get_pid set_rax
gets = refl

dispatcher-registers_example : call 1 ≡ set_rax 1 (call 39)
unfolding set_rax
dispatcher-registers_example =
    dispatcher-registers memory user flat none (call 39) (call 1) (system first) (system first)
      (unfold from in refl) gets

unlisted : (c : Syscall) → (call 40).regs.rax ≢ number c
unfolding set_rax number
unlisted Syscall.read e = absurd (omega arith)
unlisted Syscall.write e = absurd (omega arith)
unlisted Syscall.brk e = absurd (omega arith)
unlisted Syscall.get_pid e = absurd (omega arith)
unlisted Syscall.sem e = absurd (omega arith)
unlisted Syscall.fork e = absurd (omega arith)
unlisted Syscall.spawn e = absurd (omega arith)
unlisted Syscall.exit e = absurd (omega arith)
unlisted Syscall.wait_pid e = absurd (omega arith)
unlisted Syscall.time e = absurd (omega arith)
unlisted Syscall.list_app e = absurd (omega arith)
unlisted Syscall.stat e = absurd (omega arith)
unlisted Syscall.allocate e = absurd (omega arith)
unlisted Syscall.deallocate e = absurd (omega arith)
unlisted Syscall.unknown e = absurd (omega arith)

dispatcher-unknown_run :
    dispatcher memory user flat none (call 40) (system first) ≡ ok (call 40, system first)
dispatcher-unknown_run = dispatcher-unknown memory user flat none (call 40) (system first) unlisted

-- The first process makes a semaphore, reads a descriptor and moves the end of its heap.
first_data : Calls.current_data memory first ≡ ok (0, Data.default)
unfolding Calls.current_data Kernel.current_proc Kernel.get_pid Kernel.get_proc get
first_data = refl

sys_new_sem-answer_example :
    Wrappers.sys_new_sem
      (Answers.trap memory user flat none context.stack_frame)
      context.regs
      7
      1
      (system first)
    ≡ ok (
      not (SemaphoreSet.insert 7 1 Data.default.semaphores).0,
      Answers.with_semaphores memory user flat none context.stack_frame context.regs
          (system first)
          0
          Data.default
          first_data
          (SemaphoreSet.insert 7 1 Data.default.semaphores).1,
    )
sys_new_sem-answer_example =
    Answers.sys_new_sem-answer memory user flat none context.stack_frame context.regs (system first)
      0 Data.default first_data 7 1 (omega arith)

sys_remove_sem-answer_run :
    Wrappers.sys_remove_sem
      (Answers.trap memory user flat none context.stack_frame)
      context.regs
      7
      (system first)
    ≡ ok (
      not (SemaphoreSet.remove 7 Data.default.semaphores).0,
      Answers.with_semaphores memory user flat none context.stack_frame context.regs
          (system first)
          0
          Data.default
          first_data
          (SemaphoreSet.remove 7 Data.default.semaphores).1,
    )
sys_remove_sem-answer_run =
    Answers.sys_remove_sem-answer memory user flat none context.stack_frame context.regs
      (system first) 0 Data.default first_data 7 (omega arith)

-- Process 2 waits for the semaphore 7.
abbrev waited : ProcessData
waited = record Data.default {
  semaphores = record { sems = (7, record { count = 0; wait_queue = 2 ∷ [] }) ∷ [] };
}

abbrev waiting : Kernel memory
waiting = record first { datas = (0, waited) ∷ [] }

waited_data : Calls.current_data memory waiting ≡ ok (0, waited)
unfolding Calls.current_data Kernel.current_proc Kernel.get_pid Kernel.get_proc get
waited_data = refl

wakes : (SemaphoreSet.signal 7 waited.semaphores).0 ≡ SemaphoreResult.wake_up 2
unfolding SemaphoreSet.signal Semaphore.signal get
wakes = refl

sys_sem_signal-woken_example :
    Wrappers.sys_sem_signal
      (Answers.trap memory user flat none context.stack_frame)
      context.regs
      7
      (system waiting)
    ≡ ok (
      false,
      record (system waiting) {
        kernel =
            Kernel.wake_up memory 2 none
              (Answers.with_semaphores memory user flat none context.stack_frame context.regs
                (system waiting)
                0
                waited
                waited_data
                (SemaphoreSet.signal 7 waited.semaphores).1).kernel;
      },
    )
sys_sem_signal-woken_example =
    Answers.sys_sem_signal-woken memory user flat none context.stack_frame context.regs
      (system waiting) 0 waited waited_data 7 2 (omega arith) wakes

sys_read-answer_run :
    let (count, written, rest) = Data.read 0 256 [] Data.default in
    Wrappers.sys_read
      (Answers.trap memory user flat none context.stack_frame)
      context.regs
      0
      0x2000
      256
      (system first)
    ≡ ok (
      if count == minus_one then none else some count,
      record (system first) { input = rest; kernel = first },
    )
sys_read-answer_run =
    Answers.sys_read-answer memory user flat none context.stack_frame context.regs (system first) 0
      Data.default first_data 0 0x2000 256 (omega arith) (omega arith)

moves : Calls.brk memory (some 0x3000) first ≡ ok (some 0x3000, first)
unfolding Calls.brk Kernel.current_proc Kernel.get_pid Kernel.get_proc get
moves = refl

sys_brk-answer_run :
    Wrappers.sys_brk
      (Answers.trap memory user flat none context.stack_frame)
      context.regs
      (some 0x3000)
      (system first)
    ≡ ok (some 0x3000, system first)
sys_brk-answer_run =
    Answers.sys_brk-answer memory user flat none context.stack_frame context.regs (system first)
      0x3000 (some 0x3000) first (omega arith) (flat.virt_addr-low 0x3000 (omega arith)) moves
      (λ e. absurd (ground arith))
