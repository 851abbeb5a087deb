-- ===== src/Proc/Kernel.antt =====
-- The state of process management, and `ProcessManager` of
-- src/0x01/pkg/kernel/src/proc/manager.rs with `ProcessId` of pid.rs, the current `Processor` of
-- processor.rs. One processor runs, with interrupts off in every call.
pub mod Switch
pub mod Sched
pub mod Turns
pub mod Moves
pub mod Waking
pub mod Exit
use yat_sen_os.Prelude.{
  ℕ, zero, suc, ◌+◌, ◌%◌, ◌^◌, true, false, Option, none, some, List, [], ◌∷◌, ◌++◌, ◌==◌,
  if◌then◌else◌, Outcome, ok, panic, endless, unwrap, ◌>>=◌, length,
}
use mathlib.Core.Option
use yat_sen_os.BTreeMap.{Map, get, insert, remove, modify, set_insert}
use yat_sen_os.Proc.Data.{ProcessData}
use yat_sen_os.Proc.Context.{ProcessContext}
use yat_sen_os.Proc.Memory.{ProcessMemory}
use yat_sen_os.Proc.Process
use yat_sen_os.Proc.Process.{ProcessInner, ProgramStatus, status_eq}

abbrev pub kernel_pid : ℕ
kernel_pid = 1

pub record Kernel (v : ProcessMemory) : Type 0 where
  pub processes : Map (ProcessInner v)
  -- the head is the front
  pub ready_queue : List ℕ
  -- for a pid, the processes that wait for it to exit
  pub wait_queue : Map (List ℕ)
  -- the pid of the processor, 0 if it is free
  pub current : ℕ
  -- `COUNTER` of pid.rs
  pub counter : ℕ
  -- the process data by reference, and the next reference
  pub datas : Map ProcessData
  pub next_data : ℕ
  pub machine : v.Machine

module _ (v : ProcessMemory) where
  -- `ProcessId::new`, a `u16` that wraps
  unfoldable pub new_pid : Kernel v → ℕ × Kernel v
  new_pid k = (k.counter, record k { counter = (k.counter + 1) % 2 ^ 16 })

  unfoldable pub set_pid : ℕ → Kernel v → Kernel v
  set_pid pid k = record k { current = pid }

  unfoldable pub get_pid : Kernel v → Outcome ℕ
  get_pid k = if k.current == 0 then panic else ok k.current

  unfoldable pub push_ready : ℕ → Kernel v → Kernel v
  push_ready pid k = record k { ready_queue = k.ready_queue ++ pid ∷ [] }

  unfoldable pub add_proc : ℕ → ProcessInner v → Kernel v → Kernel v
  add_proc pid p k = record k { processes = insert pid p k.processes }

  unfoldable pub get_proc : ℕ → Kernel v → Option (ProcessInner v)
  get_proc pid k = get pid k.processes

  -- A write to a process that the manager holds.
  unfoldable pub write_proc : ℕ → (ProcessInner v → ProcessInner v) → Kernel v → Kernel v
  write_proc pid f k = record k { processes = modify pid f k.processes }

  -- With no process in the queue it is the kernel's turn.
  unfoldable pub pop_ready : Kernel v → ℕ × Kernel v
  pop_ready k = elim k.ready_queue [
    | [] ↦ (kernel_pid, k)
    | pid ∷ rest ↦ (pid, record k { ready_queue = rest })
  ]

  -- The current process, with its pid.
  unfoldable pub current_proc : Kernel v → Outcome (ℕ × ProcessInner v)
  unfolding get_pid get_proc
  current_proc k = do pid ← get_pid k; p ← unwrap (get_proc pid k); ok (pid, p)

  unfoldable pub save_current : ProcessContext → Kernel v → Outcome (Kernel v)
  unfolding current_proc write_proc
  save_current context k = do
    (pid, p) ← current_proc k
    ok (write_proc pid (λ q. Process.save v context (Process.tick v q)) k)

  -- `switch_next` when the process is found: it gets the processor.
  unfoldable pub dispatch :
      ℕ → ProcessInner v → ProcessContext → Kernel v → Outcome (ℕ × ProcessContext × Kernel v)
  unfolding write_proc set_pid
  dispatch pid p context k = do
    (context', p', m) ← Process.restore v context p k.machine
    ok (pid, context', set_pid pid (write_proc pid (λ q. p') (record k { machine = m })))

  -- A round of the loop, at the pid that was popped.
  unfoldable pub visit :
      (Kernel v → Outcome (ℕ × ProcessContext × Kernel v))
      → ProcessContext
      → ℕ
      → Kernel v
      → Outcome (ℕ × ProcessContext × Kernel v)
  unfolding get_proc
  visit go_on context next_pid k = elim (get_proc next_pid k) [
    | none ↦ go_on k
    | some p ↦ elim (Process.is_ready v p) [
      | true ↦ dispatch next_pid p context k
      | false ↦ go_on k
    ]
  ]

  unfoldable pub switch_loop :
      ℕ → ProcessContext → Kernel v → Outcome (ℕ × ProcessContext × Kernel v)
  switch_loop zero context k = endless
  switch_loop (suc fuel) context k =
      let (next_pid, k') = pop_ready k in
      visit (λ later. switch_loop fuel context later) context next_pid k'

  -- Once the queue is empty, each round is the same: one round more than the queue is long decides.
  unfoldable pub switch_next : ProcessContext → Kernel v → Outcome (ℕ × ProcessContext × Kernel v)
  switch_next context k = switch_loop (suc (length k.ready_queue)) context k

  abbrev pub with_return : Option ℕ → ProcessInner v → ProcessInner v
  with_return none p = p
  with_return (some ret) p = Process.set_return v ret p

  unfoldable pub wake_up : ℕ → Option ℕ → Kernel v → Kernel v
  unfolding get_proc write_proc push_ready
  wake_up pid ret k = elim (get_proc pid k) [
    | none ↦ k
    | some p ↦ push_ready pid (write_proc pid (λ q. Process.pause v (with_return ret q)) k)
  ]

  unfoldable pub wake_all : List ℕ → ℕ → Kernel v → Kernel v
  wake_all [] ret k = k
  wake_all (pid ∷ pids) ret k = wake_all pids ret (wake_up pid (some ret) k)

  unfoldable pub block : ℕ → Kernel v → Kernel v
  unfolding get_proc write_proc
  block pid k = write_proc pid (Process.block v) k

  unfoldable pub wait_pid : ℕ → Kernel v → Outcome (Kernel v)
  unfolding get_pid
  wait_pid pid k = do
    self ← get_pid k
    let entry = Option.get_or (get pid k.wait_queue) []
    ok (record k { wait_queue = insert pid (set_insert self entry) k.wait_queue })

  unfoldable pub get_exit_code : ℕ → Kernel v → Option ℕ
  get_exit_code pid k = elim (get pid k.processes) [
    | none ↦ none
    | some p ↦ if Process.is_dead v p then p.exit_code else none
  ]

  -- The waiters of `pid`, taken out of the queue, are woken with its exit code.
  unfoldable pub wake_waiters : ℕ → ℕ → Kernel v → Kernel v
  unfolding wake_all
  wake_waiters pid ret k =
      wake_all (Option.get_or (get pid k.wait_queue) []) ret
        (record k { wait_queue = remove pid k.wait_queue })

  -- `proc.kill(ret)` on the process of that pid.
  unfoldable pub kill_proc : ℕ → ProcessInner v → ℕ → Kernel v → Outcome (Kernel v)
  unfolding write_proc
  kill_proc pid p ret k = do
    (p', m) ← Process.kill v ret p k.machine
    ok (write_proc pid (λ q. p') (record k { machine = m }))

  unfoldable pub kill : ℕ → ℕ → Kernel v → Outcome (Kernel v)
  unfolding get_proc wake_waiters kill_proc
  kill pid ret k = elim (get_proc pid k) [
    | none ↦ ok k
    | some p ↦
        let woken = wake_waiters pid ret k in
        elim (get_proc pid woken) [
          | none ↦ ok woken
          | some p' ↦ if Process.is_dead v p' then ok woken else kill_proc pid p' ret woken
        ]
  ]
