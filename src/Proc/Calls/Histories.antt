-- ===== src/Proc/Calls/Histories.antt =====
-- Any sequence of the calls of src/0x01/pkg/kernel/src/proc/mod.rs that return.
use yat_sen_os.Prelude.{ℕ, ◌≡◌, Bool, Option, List, ok, inr, arith}
use yat_sen_os.BTreeMap.{get, insert}
use yat_sen_os.Proc.Context.{ProcessContext, UserSelectors}
use yat_sen_os.Proc.Memory.{ProcessMemory}
use yat_sen_os.Proc.Kernel.{Kernel, new_pid, add_proc, set_pid}
use yat_sen_os.Proc.Kernel.Sched.{IsValid}
use yat_sen_os.Proc.Calls.{
  init, new_data, switch, process_exit, wait_pid, fork, sem_init, sem_remove, sem_wait, sem_signal,
  elf_spawn, handle_page_fault, brk,
}
use yat_sen_os.Proc.Calls.Schedule.{switch-Next, process_exit-Next, wait_pid-IsValid}
use yat_sen_os.Proc.Calls.Births.{fork-Next, elf_spawn-IsValid}
use yat_sen_os.Proc.Calls.Permits.{
  sem_init-IsValid, sem_remove-IsValid, sem_wait-IsValid, sem_signal-IsValid,
  handle_page_fault-IsValid, brk-IsValid,
}

module _ (v : ProcessMemory) where
  -- One call, from the kernel before it to the kernel after it.
  pub data Step : Kernel v → Kernel v → Type 0 where
    switched :
        (context c : ProcessContext) (k k' : Kernel v) → switch v context k ≡ ok (c, k') → Step k k'
    exited :
        (ret : ℕ) (context c : ProcessContext) (k k' : Kernel v)
        → process_exit v ret context k ≡ ok (c, k')
        → Step k k'
    waited :
        (pid : ℕ) (context c : ProcessContext) (k k' : Kernel v)
        → wait_pid v pid context k ≡ ok (c, k')
        → Step k k'
    forked :
        (context c : ProcessContext) (k k' : Kernel v) → fork v context k ≡ ok (c, k') → Step k k'
    spawned :
        (selectors : UserSelectors) (elf : v.ElfFile) (name : List ℕ) (pid : ℕ) (k k' : Kernel v)
        → elf_spawn v selectors elf name k ≡ ok (pid, k')
        → Step k k'
    sem_made :
        (key value ret : ℕ) (k k' : Kernel v) → sem_init v key value k ≡ ok (ret, k') → Step k k'
    sem_removed : (key ret : ℕ) (k k' : Kernel v) → sem_remove v key k ≡ ok (ret, k') → Step k k'
    sem_waited :
        (key : ℕ) (context c : ProcessContext) (k k' : Kernel v)
        → sem_wait v key context k ≡ ok (c, k')
        → Step k k'
    sem_signalled :
        (key : ℕ) (context c : ProcessContext) (k k' : Kernel v)
        → sem_signal v key context k ≡ ok (c, k')
        → Step k k'
    faulted :
        (addr : ℕ) (by_write handled : Bool) (k k' : Kernel v)
        → handle_page_fault v addr by_write k ≡ ok (handled, k')
        → Step k k'
    -- A process, or the kernel for it, writes to the memory of the process.
    stored : (m : v.Machine) (k : Kernel v) → Step k (record k { machine = m })
    moved : (addr answer : Option ℕ) (k k' : Kernel v) → brk v addr k ≡ ok (answer, k') → Step k k'

  -- From the kernel before some calls, in any order, to the kernel after them.
  pub data Reach (k : Kernel v) : Kernel v → Type 0 where
    here : Reach k k
    next : {k' k'' : Kernel v} → Reach k k' → Step k' k'' → Reach k k''

  pub Step-IsValid : {k k' : Kernel v} → Step k k' → IsValid v k → IsValid v k'
  Step-IsValid (switched context c k k' e) valid = (switch-Next v context c k k' valid e).0
  Step-IsValid (exited ret context c k k' e) valid =
      (process_exit-Next v ret context c k k' valid e).0
  Step-IsValid (waited pid context c k k' e) valid = wait_pid-IsValid v pid context c k k' valid e
  Step-IsValid (forked context c k k' e) valid = (fork-Next v context c k k' valid e).0
  Step-IsValid (spawned selectors elf name pid k k' e) valid =
      elf_spawn-IsValid v selectors elf name pid k k' valid e
  Step-IsValid (sem_made key value ret k k' e) valid = sem_init-IsValid v key value ret k k' valid e
  Step-IsValid (sem_removed key ret k k' e) valid = sem_remove-IsValid v key ret k k' valid e
  Step-IsValid (sem_waited key context c k k' e) valid =
      sem_wait-IsValid v key context c k k' valid e
  Step-IsValid (sem_signalled key context c k k' e) valid =
      sem_signal-IsValid v key context c k k' valid e
  Step-IsValid (faulted addr by_write handled k k' e) valid =
      handle_page_fault-IsValid v addr by_write handled k k' valid e
  Step-IsValid (stored m k) valid = valid
  Step-IsValid (moved addr answer k k' e) valid = brk-IsValid v addr answer k k' valid e

  pub init-IsValid : (vm : v.Vm) (m : v.Machine) → IsValid v (init v vm m)
  unfolding init new_pid new_data add_proc set_pid get insert
  init-IsValid vm m q p e = record {
    if_running = λ r. ground (arith, e);
    if_ready = λ r. inr (ground (arith, e));
  }

  pub Reach-IsValid : {k k' : Kernel v} → Reach k k' → IsValid v k → IsValid v k'
  Reach-IsValid here valid = valid
  Reach-IsValid (next r st) valid = Step-IsValid st (Reach-IsValid r valid)

  -- Whatever calls return, in whatever order, from the start of the process manager on: only the
  -- current process runs, and every process that is ready stands in the ready queue or is the kernel
  -- process.
  pub init-Reach-IsValid :
      (vm : v.Vm) (m : v.Machine) {k : Kernel v} → Reach (init v vm m) k → IsValid v k
  init-Reach-IsValid vm m r = Reach-IsValid r (init-IsValid vm m)
