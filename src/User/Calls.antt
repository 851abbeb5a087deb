-- ===== src/User/Calls.antt =====
-- The wrappers of src/0x01/pkg/lib/src/syscall.rs over the macros of src/0x01/pkg/syscall/src/macros.rs.
-- `int80` is the instruction `int 0x80`: from the registers and the world before it to `rax` and
-- the world after it. A slice is its address and its length; an `isize` is its bit pattern.
use yat_sen_os.Prelude.{
  ℕ, ◌-◌, ◌%◌, ◌^◌, Bool, Option, none, some, leb, ◌==◌, if◌then◌else◌, Outcome, panic, ok, ◌>>=◌,
}
use yat_sen_os.Proc.Context.{RegistersValue}
use yat_sen_os.Syscall.{Syscall, number}

abbrev pub is_negative : ℕ → Bool
is_negative w = leb (2 ^ 63) w

-- `ret as isize`, and `None` where it is negative
unfoldable pub non_negative : ℕ → Option ℕ
non_negative ret = if is_negative ret then none else some ret

abbrev pub brk_failed : ℕ
brk_failed = 2 ^ 64 - 1

-- `!0` is `None`.
unfoldable pub brk_answer : ℕ → Option ℕ
brk_answer ret = if ret == brk_failed then none else some ret

abbrev pub or_zero : Option ℕ → ℕ
or_zero none = 0
or_zero (some addr) = addr

-- `regs` are the registers that a wrapper does not set.
module _ {World : Type 0} (int80 : RegistersValue → World → Outcome (ℕ × World))
    (regs : RegistersValue) where
  abbrev pub Answer : Type 0 → Type 0
  Answer A = World → Outcome (A × World)

  unfoldable pub syscall0 : Syscall → Answer ℕ
  syscall0 n = int80 (record regs { rax = number n })

  unfoldable pub syscall1 : Syscall → ℕ → Answer ℕ
  syscall1 n arg0 = int80 (record regs { rax = number n; rdi = arg0 })

  unfoldable pub syscall2 : Syscall → ℕ → ℕ → Answer ℕ
  syscall2 n arg0 arg1 = int80 (record regs { rax = number n; rdi = arg0; rsi = arg1 })

  unfoldable pub syscall3 : Syscall → ℕ → ℕ → ℕ → Answer ℕ
  syscall3 n arg0 arg1 arg2 =
      int80 (record regs { rax = number n; rdi = arg0; rsi = arg1; rdx = arg2 })

  -- What a wrapper makes of `rax`.
  abbrev pub with_answer : {A : Type 0} → (ℕ → A) → Outcome (ℕ × World) → Outcome (A × World)
  with_answer f call = do (ret, w) ← call; ok (f ret, w)

  unfoldable pub sys_write : ℕ → ℕ → ℕ → Answer (Option ℕ)
  unfolding non_negative syscall3
  sys_write fd buf len w = with_answer non_negative (syscall3 Syscall.write fd buf len w)

  unfoldable pub sys_read : ℕ → ℕ → ℕ → Answer (Option ℕ)
  unfolding non_negative syscall3
  sys_read fd buf len w = with_answer non_negative (syscall3 Syscall.read fd buf len w)

  unfoldable pub sys_wait_pid : ℕ → Answer ℕ
  unfolding syscall1
  sys_wait_pid pid = syscall1 Syscall.wait_pid pid

  -- The answer is dropped.
  unfoldable pub sys_list_app : World → Outcome World
  unfolding syscall0
  sys_list_app w = do (ret, w') ← syscall0 Syscall.list_app w; ok w'

  unfoldable pub sys_stat : World → Outcome World
  unfolding syscall0
  sys_stat w = do (ret, w') ← syscall0 Syscall.stat w; ok w'

  unfoldable pub sys_allocate : ℕ → Answer ℕ
  unfolding syscall1
  sys_allocate layout = syscall1 Syscall.allocate layout

  unfoldable pub sys_deallocate : ℕ → ℕ → Answer ℕ
  unfolding syscall2
  sys_deallocate ptr layout = syscall2 Syscall.deallocate ptr layout

  unfoldable pub sys_spawn : ℕ → ℕ → Answer ℕ
  unfolding syscall2
  sys_spawn path len w = with_answer (λ ret. ret % 2 ^ 16) (syscall2 Syscall.spawn path len w)

  unfoldable pub sys_get_pid : Answer ℕ
  unfolding syscall0
  sys_get_pid w = with_answer (λ ret. ret % 2 ^ 16) (syscall0 Syscall.get_pid w)

  -- `unreachable!` panics where the call returns.
  unfoldable pub sys_exit : ℕ → World → Outcome World
  unfolding syscall1
  sys_exit code w = do (ret, w') ← syscall1 Syscall.exit code w; panic

  unfoldable pub sys_fork : Answer ℕ
  unfolding syscall0
  sys_fork w = with_answer (λ ret. ret % 2 ^ 16) (syscall0 Syscall.fork w)

  unfoldable pub sys_new_sem : ℕ → ℕ → Answer Bool
  unfolding syscall3
  sys_new_sem key value w = with_answer (λ ret. ret == 0) (syscall3 Syscall.sem 0 key value w)

  unfoldable pub sys_remove_sem : ℕ → Answer Bool
  unfolding syscall2
  sys_remove_sem key w = with_answer (λ ret. ret == 0) (syscall2 Syscall.sem 1 key w)

  unfoldable pub sys_sem_signal : ℕ → Answer Bool
  unfolding syscall2
  sys_sem_signal key w = with_answer (λ ret. ret == 0) (syscall2 Syscall.sem 2 key w)

  unfoldable pub sys_sem_wait : ℕ → Answer Bool
  unfolding syscall2
  sys_sem_wait key w = with_answer (λ ret. ret == 0) (syscall2 Syscall.sem 3 key w)

  unfoldable pub sys_time : Answer ℕ
  unfolding syscall0
  sys_time = syscall0 Syscall.time

  unfoldable pub sys_brk : Option ℕ → Answer (Option ℕ)
  unfolding syscall1 brk_answer
  sys_brk addr w = with_answer brk_answer (syscall1 Syscall.brk (or_zero addr) w)
