-- ===== src/Proc/Calls.antt =====
-- The functions of src/0x01/pkg/kernel/src/proc/mod.rs, which the interrupt handlers call. Each
-- runs with interrupts off; `context` is the interrupted process's, and is written in place.
pub mod Schedule
pub mod Births
pub mod Permits
pub mod Histories
pub mod Returns
use yat_sen_os.Prelude.{
  ℕ, ◌+◌, Bool, true, false, Option, none, some, List, [], ◌∷◌, ◌++◌, if◌then◌else◌, Outcome, ok,
  panic, unwrap, ◌>>=◌, not,
}
use yat_sen_os.BTreeMap.{get, insert, modify}
use yat_sen_os.Sync.Semaphore.{SemaphoreResult}
use yat_sen_os.Sync.SemaphoreSet
use yat_sen_os.Sync.SemaphoreSet.{SemaphoreSet}
use yat_sen_os.Proc.Data
use yat_sen_os.Proc.Data.{ProcessData}
use yat_sen_os.Io.Input.{Key}
use yat_sen_os.Proc.Context.{ProcessContext, UserSelectors, set_rax, init_stack_frame}
use yat_sen_os.Proc.Memory.{ProcessMemory}
use yat_sen_os.Proc.Process
use yat_sen_os.Proc.Process.{ProcessInner}
use yat_sen_os.Proc.Kernel
use yat_sen_os.Proc.Kernel.{Kernel, kernel_pid}

abbrev pub kernel_name : List ℕ
kernel_name = b'k' ∷ b'e' ∷ b'r' ∷ b'n' ∷ b'e' ∷ b'l' ∷ []

module _ (v : ProcessMemory) where
  -- What an interrupt handler leaves: the context to go on with, and the kernel.
  abbrev pub After : Type 0
  After = Outcome (ProcessContext × Kernel v)

  -- `switch_next` at the end of a handler, its pid left unused.
  unfoldable pub go_next : ProcessContext → Kernel v → After
  go_next context k = do (pid, context', k') ← Kernel.switch_next v context k; ok (context', k')

  unfoldable pub switch : ProcessContext → Kernel v → After
  unfolding go_next
  switch context k = do
    saved ← Kernel.save_current v context k
    pid ← Kernel.get_pid v saved
    go_next context (Kernel.push_ready v pid saved)

  -- `kill_current` and `switch_next`; `exit` is the same function.
  unfoldable pub process_exit : ℕ → ProcessContext → Kernel v → After
  unfolding go_next
  process_exit ret context k = do
    pid ← Kernel.get_pid v k
    killed ← Kernel.kill v pid ret k
    go_next context killed

  -- `manager.current().write().block()`
  unfoldable pub block_current : Kernel v → Outcome (Kernel v)
  block_current k = do (pid, p) ← Kernel.current_proc v k; ok (Kernel.block v pid k)

  -- `wait_pid` for a process that is not dead.
  unfoldable pub await_exit : ℕ → ProcessContext → Kernel v → After
  unfolding go_next block_current
  await_exit pid context k = do
    waiting ← Kernel.wait_pid v pid k
    saved ← Kernel.save_current v context waiting
    blocked ← block_current saved
    go_next context blocked

  unfoldable pub wait_pid : ℕ → ProcessContext → Kernel v → After
  unfolding await_exit
  wait_pid pid context k = elim (Kernel.get_exit_code v pid k) [
    | some ret ↦ ok (set_rax ret context, k)
    | none ↦ await_exit pid context k
  ]

  unfoldable pub still_alive : ℕ → Kernel v → Bool
  still_alive pid k = elim (Kernel.get_proc v pid k) [
    | none ↦ false
    | some p ↦ not (Process.is_dead v p)
  ]

  -- `Process::fork`: the child gets a pid, the parent the child and its pid in `rax`.
  unfoldable pub fork_process : Kernel v → Outcome (ℕ × Kernel v)
  fork_process k = do
    (pid, p) ← Kernel.current_proc v k
    (child, m) ← Process.fork v pid p k.machine
    let (child_pid, k') = Kernel.new_pid v (record k { machine = m })
    let parent = λ (q : ProcessInner v).
        Process.set_return v child_pid (record q { children = q.children ++ child_pid ∷ [] })
    let linked = Kernel.write_proc v pid parent k'
    ok (child_pid, Kernel.add_proc v child_pid (Process.pause v child) linked)

  unfoldable pub fork : ProcessContext → Kernel v → After
  unfolding go_next fork_process
  fork context k = do
    saved ← Kernel.save_current v context k
    (child_pid, forked) ← fork_process saved
    (pid, p) ← Kernel.current_proc v forked
    go_next context (Kernel.push_ready v child_pid (Kernel.push_ready v pid forked))

  -- The reference to the current process's data, which a dead process has not.
  unfoldable pub current_data : Kernel v → Outcome (ℕ × ProcessData)
  current_data k = do
    (pid, p) ← Kernel.current_proc v k
    r ← unwrap p.proc_data
    data' ← unwrap (get r k.datas)
    ok (r, data')

  -- `read` and `write` of a descriptor; a read returns what it writes, and the input buffer.
  unfoldable pub read : ℕ → ℕ → List Key → Kernel v → Outcome (ℕ × List ℕ × List Key)
  unfolding current_data
  read fd size input k = do (r, d) ← current_data k; ok (Data.read fd size input d)

  unfoldable pub write : ℕ → List ℕ → Kernel v → Outcome ℕ
  unfolding current_data
  write fd buf k = do (r, d) ← current_data k; ok (Data.write fd buf d)

  unfoldable pub env : List ℕ → Kernel v → Outcome (Option (List ℕ))
  unfolding current_data
  env key k = do (r, d) ← current_data k; ok (Data.env key d)

  unfoldable pub store_semaphores : ℕ → SemaphoreSet → Kernel v → Kernel v
  store_semaphores r s k = record k { datas = modify r (λ d. record d { semaphores = s }) k.datas }

  abbrev pub as_usize : Bool → ℕ
  as_usize true = 1
  as_usize false = 0

  unfoldable pub sem_init : ℕ → ℕ → Kernel v → Outcome (ℕ × Kernel v)
  unfolding current_data store_semaphores
  sem_init key value k = do
    (r, d) ← current_data k
    let (fresh, s) = SemaphoreSet.insert key value d.semaphores
    ok (as_usize fresh, store_semaphores r s k)

  unfoldable pub sem_remove : ℕ → Kernel v → Outcome (ℕ × Kernel v)
  unfolding current_data store_semaphores
  sem_remove key k = do
    (r, d) ← current_data k
    let (found, s) = SemaphoreSet.remove key d.semaphores
    ok (as_usize found, store_semaphores r s k)

  -- `wait` answers no `WakeUp` and `signal` no `Block`: these are `unreachable!`.
  unfoldable pub after_wait : SemaphoreResult → ProcessContext → Kernel v → After
  unfolding go_next
  after_wait SemaphoreResult.ok context k = ok (set_rax 0 context, k)
  after_wait SemaphoreResult.not_exist context k = ok (set_rax 1 context, k)
  after_wait (SemaphoreResult.block pid) context k = do
    saved ← Kernel.save_current v context k
    go_next context (Kernel.block v pid saved)
  after_wait (SemaphoreResult.wake_up pid) context k = panic

  unfoldable pub sem_wait : ℕ → ProcessContext → Kernel v → After
  unfolding current_data store_semaphores after_wait
  sem_wait key context k = do
    pid ← Kernel.get_pid v k
    (r, d) ← current_data k
    let (result, s) = SemaphoreSet.wait key pid d.semaphores
    after_wait result context (store_semaphores r s k)

  unfoldable pub after_signal : SemaphoreResult → ProcessContext → Kernel v → After
  after_signal SemaphoreResult.ok context k = ok (set_rax 0 context, k)
  after_signal SemaphoreResult.not_exist context k = ok (set_rax 1 context, k)
  after_signal (SemaphoreResult.wake_up pid) context k = ok (context, Kernel.wake_up v pid none k)
  after_signal (SemaphoreResult.block pid) context k = panic

  unfoldable pub sem_signal : ℕ → ProcessContext → Kernel v → After
  unfolding current_data store_semaphores after_signal
  sem_signal key context k = do
    (r, d) ← current_data k
    let (result, s) = SemaphoreSet.signal key d.semaphores
    after_signal result context (store_semaphores r s k)

  -- `ProcessData::new`, by a new reference.
  unfoldable pub new_data : Kernel v → ℕ × Kernel v
  new_data k = (
    k.next_data,
    record k { datas = insert k.next_data Data.default k.datas; next_data = k.next_data + 1 },
  )

  -- `init`: the kernel process draws the first pid and runs.
  unfoldable pub init : v.Vm → v.Machine → Kernel v
  unfolding new_data
  init kernel_vm m =
      let nothing : Kernel v = record {
        processes = [];
        ready_queue = [];
        wait_queue = [];
        current = 0;
        counter = 1;
        datas = [];
        next_data = 0;
        machine = m;
      } in
      let (pid, k1) = Kernel.new_pid v nothing in
      let (r, k2) = new_data k1 in
      let kproc = Process.resume v (Process.new v kernel_name none kernel_vm r) in
      Kernel.set_pid v pid (Kernel.add_proc v pid (Process.resume v kproc) k2)

  -- `ProcessManager::spawn`, called by `elf_spawn` with the current process as the parent.
  unfoldable pub spawn : UserSelectors → v.ElfFile → List ℕ → ℕ → Kernel v → Outcome (ℕ × Kernel v)
  unfolding new_data
  spawn selectors elf name parent k = do
    kproc ← unwrap (Kernel.get_proc v kernel_pid k)
    kernel_vm ← unwrap kproc.proc_vm
    (vm, m) ← v.new_from kernel_vm k.machine
    let (pid, k1) = Kernel.new_pid v (record k { machine = m })
    let (r, k2) = new_data k1
    (vm', m') ← v.load_elf elf vm k2.machine
    (stack_top, vm'', m'') ← v.init_proc_stack pid vm' m'
    let p = Process.new v name (some parent) vm'' r
    let framed = init_stack_frame selectors (v.entry_point elf) stack_top p.context
    let loaded = Process.pause v (record p { context = framed })
    ok (pid, Kernel.push_ready v pid (Kernel.add_proc v pid loaded (record k2 { machine = m'' })))

  unfoldable pub elf_spawn : UserSelectors → v.ElfFile → List ℕ → Kernel v → Outcome (ℕ × Kernel v)
  unfolding spawn
  elf_spawn selectors elf name k = do
    (parent, p) ← Kernel.current_proc v k
    spawn selectors elf name parent k

  -- `handle_page_fault` of the manager: only a fault by a write is handled.
  unfoldable pub handle_page_fault : ℕ → Bool → Kernel v → Outcome (Bool × Kernel v)
  handle_page_fault addr caused_by_write k = if not caused_by_write then ok (false, k) else (do
    (pid, p) ← Kernel.current_proc v k
    vm ← unwrap p.proc_vm
    (handled, vm', m) ← v.handle_page_fault addr vm k.machine
    let store = λ (q : ProcessInner v). record q { proc_vm = some vm' }
    ok (handled, Kernel.write_proc v pid store (record k { machine = m })))

  unfoldable pub brk : Option ℕ → Kernel v → Outcome (Option ℕ × Kernel v)
  brk addr k = do
    (pid, p) ← Kernel.current_proc v k
    vm ← unwrap p.proc_vm
    (answer, m) ← v.brk pid addr vm k.machine
    ok (answer, record k { machine = m })
