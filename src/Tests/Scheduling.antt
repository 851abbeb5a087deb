-- ===== src/Tests/Scheduling.antt =====
-- The scheduler, with memories that are numbers.
use yat_sen_os.Prelude.{ℕ, ◌+◌, ◌≡◌, refl, arith, true, some, none, List, [], ◌∷◌, ok, endless}
use yat_sen_os.BTreeMap.{get}
use yat_sen_os.Proc.Context
use yat_sen_os.Proc.Context.{ProcessContext, set_rax}
use yat_sen_os.Proc.Memory.{ProcessMemory}
use yat_sen_os.Proc.Data
use yat_sen_os.Proc.Process
use yat_sen_os.Proc.Process.{ProcessInner, ProgramStatus}
use yat_sen_os.Proc.Kernel.{Kernel, switch_next, switch_loop, kill, get_exit_code}
use yat_sen_os.BTreeMap.{insert, modify, has, remove}
use yat_sen_os.Sync.SemaphoreSet
use yat_sen_os.Proc.Kernel
use yat_sen_os.Proc.Kernel.Sched
use yat_sen_os.Proc.Kernel.Exit.{Alive, Resumes, waiters, kill-exit_code, kill-Resumes}
use yat_sen_os.Proc.Calls.Returns.{Armed, switch-returns}
use yat_sen_os.Proc.Process.{child_rsp}
use yat_sen_os.Proc.Process.Child.{child_rsp_lem}
use yat_sen_os.Vm.Stack.{Stack, is_on_stack}
use yat_sen_os.Proc.Calls.{switch, go_next, init, new_data, kernel_name}
use yat_sen_os.Proc.Calls.Histories.{Step, Reach, init-Reach-IsValid}
use yat_sen_os.Proc.Kernel.Switch.{
  Dispatched, switch_next-first, switch_next-kernel, switch_next-spins,
}

-- A memory is the reference of its page table, the machine the table that is loaded.
abbrev pub memory : ProcessMemory
memory = record {
  Vm = ℕ;
  Machine = ℕ;
  ElfFile = ℕ;
  entry_point = λ e. e;
  new_from = λ vm m. ok (vm, m);
  load_elf = λ e vm m. ok (vm, m);
  init_proc_stack = λ pid vm m. ok (0, vm, m);
  fork = λ offset vm m. ok (vm, m);
  stack_start = λ vm. 0;
  brk = λ pid addr vm m. ok (addr, m);
  handle_page_fault = λ addr vm m. ok (true, vm, m);
  load = λ vm m. vm;
  release = λ vm m. ok m;
}

abbrev pub context : ProcessContext
context = record {
  regs = Context.zero_regs;
  stack_frame = record {
    instruction_pointer = 0x1000;
    code_segment = 0;
    cpu_flags = 0;
    stack_pointer = 0x2000;
    stack_segment = 0;
  };
}

abbrev pub process : ProgramStatus → ProcessInner memory
process status = record {
  name = [];
  parent = none;
  children = [];
  ticks_passed = 0;
  status = status;
  context = context;
  exit_code = none;
  proc_data = some 0;
  proc_vm = some 3;
}

-- The kernel process, one that is blocked and one that is ready.
abbrev kernel : ProgramStatus → ProgramStatus → Kernel memory
kernel first third = record {
  processes = (1, process first) ∷ (2, process ProgramStatus.blocked) ∷ (3, process third) ∷ [];
  ready_queue = 2 ∷ 3 ∷ 1 ∷ [];
  wait_queue = [];
  current = 1;
  counter = 4;
  datas = [];
  next_data = 1;
  machine = 0;
}

abbrev busy : Kernel memory
busy = kernel ProgramStatus.ready ProgramStatus.ready

switch_next-first_example :
    Dispatched memory 3
      (process ProgramStatus.ready)
      (1 ∷ [])
      busy
      (switch_next memory context busy)
unfolding get Process.is_ready
switch_next-first_example =
    switch_next-first memory (2 ∷ []) 3 (1 ∷ []) (process ProgramStatus.ready) 3 context busy refl
      (refl, tt) refl refl refl

-- The only process that is ready is the kernel's, which is not in the queue.
abbrev idle : Kernel memory
idle = record (kernel ProgramStatus.ready ProgramStatus.dead) { ready_queue = 2 ∷ 3 ∷ [] }

switch_next-kernel_run :
    Dispatched memory 1 (process ProgramStatus.ready) [] idle (switch_next memory context idle)
unfolding get Process.is_ready
switch_next-kernel_run =
    switch_next-kernel memory (process ProgramStatus.ready) 3 context idle (refl, (refl, tt)) refl
      refl refl

abbrev stuck : Kernel memory
stuck = kernel ProgramStatus.blocked ProgramStatus.dead

switch_next-spins_example :
    (switch_next memory context stuck ≡ endless) × (switch_loop memory 1000 context stuck ≡ endless)
unfolding get Process.is_ready
switch_next-spins_example =
    switch_next-spins memory 1000 context stuck (refl, (refl, (refl, tt))) refl

-- The kernel process alone, and one timer interrupt.
abbrev pub first : Kernel memory
first = record {
  processes =
      (1, record (process ProgramStatus.running) { name = kernel_name; context = Context.default })
      ∷ [];
  ready_queue = [];
  wait_queue = [];
  current = 1;
  counter = 2;
  datas = (0, Data.default) ∷ [];
  next_data = 1;
  machine = 0;
}

booted : init memory 3 0 ≡ first
unfolding init Kernel.new_pid new_data Kernel.add_proc Kernel.set_pid insert Process.new
    Process.resume SemaphoreSet.empty
booted = refl

abbrev pub interrupted : ProcessContext
interrupted = set_rax 5 context

abbrev pub second : Kernel memory
second = record first {
  processes =
      (
        1,
        record (process ProgramStatus.running) {
          name = kernel_name;
          ticks_passed = 1;
          context = interrupted;
        },
      )
      ∷ [];
  machine = 3;
}

pub timer : switch memory interrupted (init memory 3 0) ≡ ok (interrupted, second)
unfolding switch init set_rax Kernel.save_current Kernel.set_pid Kernel.new_pid get Kernel.add_proc
    insert switch_next switch_loop Kernel.visit Kernel.pop_ready Kernel.push_ready modify
    Process.is_ready Process.save Process.tick Process.resume Kernel.dispatch go_next new_data
    Context.default Context.restore Context.save Kernel.current_proc Kernel.get_pid Kernel.get_proc
    Kernel.write_proc Process.is_dead Process.new Process.pause Process.restore SemaphoreSet.empty
timer = refl

init-Reach-IsValid_run : Sched.IsValid memory second
init-Reach-IsValid_run =
    init-Reach-IsValid memory 3 0 {k = second}
      (Reach.next Reach.here (Step.switched interrupted interrupted (init memory 3 0) second timer))

-- A timer interrupt with one process that waits and one that is ready.
abbrev working : Kernel memory
working = record busy {
  processes =
      (1, process ProgramStatus.running)
      ∷ (2, process ProgramStatus.blocked)
      ∷ (3, process ProgramStatus.ready)
      ∷ [];
}

working-Armed : Armed memory working
unfolding get Process.is_ready
working-Armed q p e turn = ground arith

switch-returns_example :
    (c : ProcessContext) × (k' : Kernel memory) × (switch memory context working ≡ ok (c, k'))
unfolding get Process.is_dead
switch-returns_example =
    switch-returns memory context working (process ProgramStatus.running)
      (λ e. absurd (omega arith)) refl refl refl working-Armed

-- The process 2 waits for 3, which exits.
abbrev waited_for : Kernel memory
waited_for = record working { wait_queue = (3, 2 ∷ []) ∷ []; current = 3 }

three-Alive : Alive memory 3 waited_for
unfolding get Process.is_dead
three-Alive = (process ProgramStatus.ready, refl, refl)

-- The process 3 is dead, and 2 is ready with the exit code.
abbrev after_exit : Kernel memory
after_exit = record waited_for {
  processes =
      (1, process ProgramStatus.running)
      ∷ (2, record (process ProgramStatus.ready) { context = set_rax 7 context })
      ∷ (3, Process.ended memory 7 (process ProgramStatus.ready))
      ∷ [];
  ready_queue = 2 ∷ 3 ∷ 1 ∷ 2 ∷ [];
  wait_queue = [];
}

three_exits : kill memory 3 7 waited_for ≡ ok after_exit
unfolding kill get has modify remove Kernel.wake_all Kernel.wake_up Kernel.write_proc
    Kernel.push_ready Kernel.kill_proc Kernel.wake_waiters Kernel.get_proc Process.kill
    Process.is_dead Process.pause Process.set_return set_rax
three_exits = refl

kill-exit_code_example : get_exit_code memory 3 after_exit ≡ some 7
kill-exit_code_example = kill-exit_code memory 3 7 waited_for after_exit three-Alive three_exits

two_waits : has 2 (waiters memory 3 waited_for) ≡ true
unfolding get has
two_waits = refl

kill-Resumes_example : Resumes memory 2 7 after_exit
unfolding get
kill-Resumes_example =
    kill-Resumes memory 3 7 2 (process ProgramStatus.blocked) waited_for after_exit three-Alive
      (λ e. absurd (omega arith)) two_waits refl three_exits

-- A parent's stack in the first 4 GiB from the top, and its child's 4 GiB below.
abbrev parent_stack : Stack
parent_stack = record { range = record { start = 0x280003; stop = 0x280005 }; usage = 2 }

abbrev child_stack : Stack
child_stack = record { range = record { start = 0x180003; stop = 0x180005 }; usage = 2 }

on_parent : is_on_stack 0x280004008 parent_stack ≡ true
unfolding is_on_stack
on_parent = refl

child_rsp_lem_run : child_rsp 0x280004008 0x180003000 + 0x100000000 ≡ 0x280004008
child_rsp_lem_run = child_rsp_lem parent_stack child_stack 1 0x280004008 on_parent refl

abbrev path_key : List ℕ
path_key = b'P' ∷ []

env-set_env_run :
    Data.env path_key (Data.set_env path_key (b'/' ∷ []) Data.default) ≡ some (b'/' ∷ [])
env-set_env_run = Data.env-set_env path_key path_key (b'/' ∷ []) Data.default
