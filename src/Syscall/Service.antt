-- ===== src/Syscall/Service.antt =====
-- The services of src/0x01/pkg/kernel/src/interrupt/syscall/service.rs. An argument is a machine
-- word; a cast to `u8`, `u16` or `u32` keeps the low bits, and an `isize` is its bit pattern.
use yat_sen_os.Prelude.{
  ℕ, zero, ◌+◌, ◌-◌, ◌*◌, ◌/◌, ◌%◌, ◌^◌, Option, none, some, List, [], ◌∷◌, ◌==◌, ◌||◌,
  if◌then◌else◌, Outcome, ok, panic, unwrap, ◌>>=◌, Result, okay, error,
}
use yat_sen_os.X86.{X86}
use yat_sen_os.Syscall.{Syscall}
use yat_sen_os.Io.Input.{Key}
use yat_sen_os.Proc.Context.{ProcessContext, UserSelectors, set_rax}
use yat_sen_os.Proc.Memory.{ProcessMemory}
use yat_sen_os.Proc.Data.{same_string}
use yat_sen_os.Proc.Kernel.{Kernel}
use yat_sen_os.Proc.Calls

pub record SyscallArgs : Type 0 where
  pub syscall : Syscall
  pub arg0 : ℕ
  pub arg1 : ℕ
  pub arg2 : ℕ

-- What the services use of `core::alloc::Layout` and of the time that the firmware tells.
pub record Layout : Type 0 where
  pub size : ℕ
  pub align : ℕ

pub record FirmwareTime : Type 0 where
  pub hour : ℕ
  pub minute : ℕ
  pub second : ℕ
  pub nanosecond : ℕ

-- The memory of the current process, read and written through its page table, and the crate's
-- allocator behind `USER_ALLOCATOR`. No read or write of the memory faults.
pub record UserSpace (v : ProcessMemory) : Type 1 where
  pub bytes : ℕ → ℕ → v.Machine → List ℕ
  pub store : ℕ → List ℕ → v.Machine → v.Machine
  pub layout_at : ℕ → v.Machine → Layout
  pub Allocator : Type 0
  pub allocate_first_fit : Layout → Allocator → Result ℕ (Unit {0}) × Allocator
  pub deallocate : ℕ → Layout → Allocator → Allocator

-- `usize::MAX` and `!0`
abbrev pub usize_max : ℕ
usize_max = 2 ^ 64 - 1

-- `sys_time`, in milliseconds
unfoldable pub sys_time : Option FirmwareTime → Outcome ℕ
sys_time now = do
  time ← unwrap now
  let secs = time.hour * 3600 + time.minute * 60 + time.second
  let msecs = time.nanosecond / 1_000_000
  ok (secs * 1000 + msecs)

module _ (v : ProcessMemory) (u : UserSpace v) where
  -- The kernel with what the services use beside the process manager: the keys that were typed, the
  -- allocator, the programs that the boot loader has loaded, and the selectors for a new process.
  pub record System : Type 0 where
    pub kernel : Kernel v
    pub input : List Key
    pub allocator : u.Allocator
    pub app_list : Option (List (List ℕ × v.ElfFile))
    pub selectors : UserSelectors

  unfoldable pub find_app : List ℕ → List (List ℕ × v.ElfFile) → Option v.ElfFile
  find_app name [] = none
  find_app name ((app_name, elf) ∷ apps) =
      if same_string app_name name then some elf else find_app name apps

  -- The program of that name, where there is a list of programs.
  unfoldable pub listed_app : List ℕ → Option (List (List ℕ × v.ElfFile)) → Option v.ElfFile
  unfolding find_app
  listed_app name none = none
  listed_app name (some apps) = find_app name apps

  unfoldable pub launch : Option v.ElfFile → List ℕ → System → Outcome (Option ℕ × System)
  launch none name s = ok (none, s)
  launch (some elf) name s = do
    (pid, k) ← Calls.elf_spawn v s.selectors elf name s.kernel
    ok (some pid, record s { kernel = k })

  -- `proc::spawn`
  unfoldable pub spawn_app : List ℕ → System → Outcome (Option ℕ × System)
  unfolding listed_app launch
  spawn_app name s = launch (listed_app name s.app_list) name s

  abbrev pub pid_or_zero : Option ℕ → ℕ
  pid_or_zero none = 0
  pid_or_zero (some pid) = pid

  unfoldable pub spawn_process : SyscallArgs → System → Outcome (ℕ × System)
  unfolding spawn_app
  spawn_process args s = do
    let name = u.bytes args.arg0 args.arg1 s.kernel.machine
    (answer, s') ← spawn_app name s
    ok (pid_or_zero answer, s')

  unfoldable pub sys_write : SyscallArgs → System → Outcome ℕ
  sys_write args s =
      Calls.write v (args.arg0 % 2 ^ 8) (u.bytes args.arg1 args.arg2 s.kernel.machine) s.kernel

  -- The bytes that were read are written into the buffer.
  unfoldable pub sys_read : SyscallArgs → System → Outcome (ℕ × System)
  sys_read args s = do
    (ret, written, rest) ← Calls.read v (args.arg0 % 2 ^ 8) args.arg2 s.input s.kernel
    let m = u.store args.arg1 written s.kernel.machine
    ok (ret, record s { input = rest; kernel = record (s.kernel) { machine = m } })

  -- The layout that a process refers to; `None` for the null pointer is unwrapped.
  unfoldable pub layout_ref : ℕ → System → Outcome Layout
  layout_ref ptr s = if ptr == 0 then panic else ok (u.layout_at ptr s.kernel.machine)

  abbrev pub address_or_zero : Result ℕ (Unit {0}) → ℕ
  address_or_zero (okay ptr) = ptr
  address_or_zero (error e) = 0

  unfoldable pub allocated : Layout → System → ℕ × System
  allocated layout s =
      let (ret, a) = u.allocate_first_fit layout s.allocator in
      (address_or_zero ret, record s { allocator = a })

  abbrev pub grant : Layout → System → ℕ × System
  grant layout s = if layout.size == 0 then (0, s) else allocated layout s

  unfoldable pub sys_allocate : SyscallArgs → System → Outcome (ℕ × System)
  unfolding layout_ref allocated
  sys_allocate args s = do layout ← layout_ref args.arg0 s; ok (grant layout s)

  abbrev pub give_back : ℕ → Layout → System → System
  give_back ptr layout s =
      if (ptr == 0) || (layout.size == 0)
      then s
      else record s { allocator = u.deallocate ptr layout s.allocator }

  unfoldable pub sys_deallocate : SyscallArgs → System → Outcome System
  unfolding layout_ref
  sys_deallocate args s = do layout ← layout_ref args.arg1 s; ok (give_back args.arg0 layout s)

  -- What a call of the process manager leaves of the system.
  abbrev pub After : Type 0
  After = Outcome (ProcessContext × System)

  unfoldable pub resumed : System → Outcome (ProcessContext × Kernel v) → After
  resumed s call = do (context, k) ← call; ok (context, record s { kernel = k })

  -- A call that answers in `rax`.
  unfoldable pub answered : System → ProcessContext → Outcome (ℕ × Kernel v) → After
  answered s context call = do (ret, k) ← call; ok (set_rax ret context, record s { kernel = k })

  unfoldable pub sys_sem : SyscallArgs → ProcessContext → System → After
  unfolding resumed answered
  sys_sem args context s =
      let key = args.arg1 % 2 ^ 32 in
      if args.arg0 == 0
      then answered s context (Calls.sem_init v key args.arg2 s.kernel)
      else if args.arg0 == 1
      then answered s context (Calls.sem_remove v key s.kernel)
      else if args.arg0 == 2
      then resumed s (Calls.sem_signal v key context s.kernel)
      else if args.arg0 == 3
      then resumed s (Calls.sem_wait v key context s.kernel)
      else ok (set_rax usize_max context, s)

  abbrev pub end_or_failed : Option ℕ → ℕ
  end_or_failed none = usize_max
  end_or_failed (some new_heap_end) = new_heap_end

  module _ (x : X86) where
    unfoldable pub requested_end : ℕ → Outcome (Option ℕ)
    requested_end zero = ok none
    requested_end addr = do a ← x.virt_addr addr; ok (some a)

    unfoldable pub sys_brk : SyscallArgs → System → Outcome (ℕ × System)
    unfolding requested_end
    sys_brk args s = do
      requested ← requested_end args.arg0
      (answer, k) ← Calls.brk v requested s.kernel
      ok (end_or_failed answer, record s { kernel = k })
