-- ===== src/Proc/Process.antt =====
-- `ProcessInner` of src/0x01/pkg/kernel/src/proc/process.rs. A reference to a process is its pid.
-- `proc_data` is a reference: forks share what it refers to. An `isize` is its bit pattern.
pub mod Child
use yat_sen_os.Prelude.{
  ℕ, ◌+◌, ◌*◌, ◌%◌, ◌^◌, Bool, true, false, Option, none, some, List, [], if◌then◌else◌, Outcome,
  ok, unwrap, ◌>>=◌, length, leb, ◌&&◌, map,
}
use yat_sen_os.Proc.Context
use yat_sen_os.Proc.Context.{ProcessContext, UserSelectors, set_rax, get_stack_top, update_rsp}
use yat_sen_os.Proc.Memory.{ProcessMemory}
use yat_sen_os.Vm.Stack.{stack_max_pages, stack_max_size, start_mask}

pub data ProgramStatus : Type 0 where
  running ready blocked dead : ProgramStatus

abbrev pub status_eq : ProgramStatus → ProgramStatus → Bool
status_eq ProgramStatus.running ProgramStatus.running = true
status_eq ProgramStatus.ready ProgramStatus.ready = true
status_eq ProgramStatus.blocked ProgramStatus.blocked = true
status_eq ProgramStatus.dead ProgramStatus.dead = true
status_eq _ _ = false

pub record ProcessInner (v : ProcessMemory) : Type 0 where
  pub name : List ℕ
  pub parent : Option ℕ
  pub children : List ℕ
  pub ticks_passed : ℕ
  pub status : ProgramStatus
  pub context : ProcessContext
  pub exit_code : Option ℕ
  pub proc_data : Option ℕ
  pub proc_vm : Option v.Vm

abbrev pub ascii_lowercase : ℕ → ℕ
ascii_lowercase c = if leb b'A' c && leb c b'Z' then c + 32 else c

-- `(rsp & 0xFFFF_FFFF) | (stack_start & STACK_START_MASK)`: the two parts share no bit.
unfoldable pub child_rsp : ℕ → ℕ → ℕ
child_rsp rsp stack_start = rsp % stack_max_size + start_mask stack_start

module _ (v : ProcessMemory) where
  -- `Process::new`, of the inner part; the pid is drawn by the caller.
  unfoldable pub new : List ℕ → Option ℕ → v.Vm → ℕ → ProcessInner v
  new name parent proc_vm proc_data = record {
    name = map ascii_lowercase name;
    parent = parent;
    children = [];
    ticks_passed = 0;
    status = ProgramStatus.ready;
    context = Context.default;
    exit_code = none;
    proc_data = some proc_data;
    proc_vm = some proc_vm;
  }

  unfoldable pub tick : ProcessInner v → ProcessInner v
  tick p = record p { ticks_passed = (p.ticks_passed + 1) % 2 ^ 64 }

  unfoldable pub pause : ProcessInner v → ProcessInner v
  pause p = record p { status = ProgramStatus.ready }

  unfoldable pub resume : ProcessInner v → ProcessInner v
  resume p = record p { status = ProgramStatus.running }

  unfoldable pub block : ProcessInner v → ProcessInner v
  block p = record p { status = ProgramStatus.blocked }

  unfoldable pub is_ready : ProcessInner v → Bool
  is_ready p = status_eq p.status ProgramStatus.ready

  unfoldable pub is_dead : ProcessInner v → Bool
  is_dead p = status_eq p.status ProgramStatus.dead

  unfoldable pub save : ProcessContext → ProcessInner v → ProcessInner v
  unfolding is_dead pause Context.save
  save context p =
      if is_dead p then p else pause (record p { context = Context.save context p.context })

  -- The context of the interrupt is overwritten; the page table is loaded.
  unfoldable pub restore :
      ProcessContext
      → ProcessInner v
      → v.Machine
      → Outcome (ProcessContext × ProcessInner v × v.Machine)
  unfolding resume Context.restore
  restore context p m = do
    vm ← unwrap p.proc_vm
    ok (Context.restore p.context context, resume p, v.load vm m)

  abbrev pub released : Option v.Vm → v.Machine → Outcome v.Machine
  released none m = ok m
  released (some vm) m = v.release vm m

  abbrev pub ended : ℕ → ProcessInner v → ProcessInner v
  ended ret p = record p {
    exit_code = some ret;
    status = ProgramStatus.dead;
    proc_data = none;
    proc_vm = none;
  }

  -- The process data and the memory are dropped.
  unfoldable pub kill : ℕ → ProcessInner v → v.Machine → Outcome (ProcessInner v × v.Machine)
  kill ret p m = do m' ← released p.proc_vm m; ok (ended ret p, m')

  unfoldable pub set_return : ℕ → ProcessInner v → ProcessInner v
  unfolding set_rax
  set_return ret p = record p { context = set_rax ret p.context }

  unfoldable pub fork : ℕ → ProcessInner v → v.Machine → Outcome (ProcessInner v × v.Machine)
  unfolding get_stack_top update_rsp set_rax child_rsp
  fork parent p m = do
    vm ← unwrap p.proc_vm
    (child_vm, m') ← v.fork ((length p.children + 1) * stack_max_pages) vm m
    let child_stack_top = child_rsp (get_stack_top p.context) (v.stack_start child_vm)
    ok (
      record {
        name = p.name;
        parent = some parent;
        children = [];
        ticks_passed = 0;
        status = ProgramStatus.ready;
        context = set_rax 0 (update_rsp child_stack_top p.context);
        exit_code = none;
        proc_data = p.proc_data;
        proc_vm = some child_vm;
      },
      m',
    )
