-- ===== src/Syscall.antt =====
-- The numbers of the system calls, `Syscall` of src/0x01/pkg/syscall/src/lib.rs, and the kernel's
-- side of them, src/0x01/pkg/kernel/src/interrupt/syscall.
pub mod Service
pub mod Dispatch
pub mod Interrupts
pub mod Reaches
pub mod Histories
pub mod Registers
use yat_sen_os.Prelude.{ℕ, ◌≡◌, ◌≢◌, ◌↔◌, refl, sym, ap, ◌∙◌, ◌==◌, if◌then◌else◌, arith}

pub data Syscall : Type 0 where
  read write brk get_pid sem fork spawn exit wait_pid time : Syscall
  list_app stat allocate deallocate unknown : Syscall

-- `n as usize`
unfoldable pub number : Syscall → ℕ
number Syscall.read = 0
number Syscall.write = 1
number Syscall.brk = 12
number Syscall.get_pid = 39
number Syscall.sem = 41
number Syscall.fork = 58
number Syscall.spawn = 59
number Syscall.exit = 60
number Syscall.wait_pid = 61
number Syscall.time = 201
number Syscall.list_app = 65531
number Syscall.stat = 65532
number Syscall.allocate = 65533
number Syscall.deallocate = 65534
number Syscall.unknown = 65535

-- `Syscall::from`, which `FromPrimitive` derives
unfoldable pub from : ℕ → Syscall
from n =
    if n == 0
    then Syscall.read
    else if n == 1
    then Syscall.write
    else if n == 12
    then Syscall.brk
    else if n == 39
    then Syscall.get_pid
    else if n == 41
    then Syscall.sem
    else if n == 58
    then Syscall.fork
    else if n == 59
    then Syscall.spawn
    else if n == 60
    then Syscall.exit
    else if n == 61
    then Syscall.wait_pid
    else if n == 201
    then Syscall.time
    else if n == 65531
    then Syscall.list_app
    else if n == 65532
    then Syscall.stat
    else if n == 65533
    then Syscall.allocate
    else if n == 65534
    then Syscall.deallocate
    else Syscall.unknown

pub from-number : (s : Syscall) → from (number s) ≡ s
unfolding from number
from-number Syscall.read = refl
from-number Syscall.write = refl
from-number Syscall.brk = refl
from-number Syscall.get_pid = refl
from-number Syscall.sem = refl
from-number Syscall.fork = refl
from-number Syscall.spawn = refl
from-number Syscall.exit = refl
from-number Syscall.wait_pid = refl
from-number Syscall.time = refl
from-number Syscall.list_app = refl
from-number Syscall.stat = refl
from-number Syscall.allocate = refl
from-number Syscall.deallocate = refl
from-number Syscall.unknown = refl

number-from : (n : ℕ) → from n ≢ Syscall.unknown → number (from n) ≡ n
unfolding from number
number-from n known = ground arith

-- The kernel takes a number for a system call other than `unknown` exactly when it is the number
-- that the user library passes for that call.
pub from-eq_iff : (n : ℕ) (s : Syscall) → s ≢ Syscall.unknown → (from n ≡ s) ↔ (n ≡ number s)
from-eq_iff n s known = (
  λ (e : from n ≡ s). sym (number-from n (λ u. known (sym e ∙ u))) ∙ ap number e,
  λ (e : n ≡ number s). rw e (from-number s),
)
