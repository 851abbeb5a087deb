-- ===== src/Sync/Semaphore.antt =====
-- `Semaphore` of src/0x01/pkg/kernel/src/proc/sync.rs. A process id is its `u16` number. The
-- `Mutex` around a semaphore is held for one call, so a history is a sequence of calls.
pub mod Fifo
pub mod Permits
use yat_sen_os.Prelude.{
  ℕ, ◌+◌, ◌-◌, ◌%◌, ◌^◌, ◌≡◌, refl, ◌⊎◌, inr, arith, List, [], ◌∷◌, ◌++◌, ◌==◌, if◌then◌else◌,
}

pub record Semaphore : Type 0 where
  pub count : ℕ
  pub wait_queue : List ℕ

pub data SemaphoreResult : Type 0 where
  ok : SemaphoreResult
  not_exist : SemaphoreResult
  block : ℕ → SemaphoreResult
  wake_up : ℕ → SemaphoreResult

unfoldable pub new : ℕ → Semaphore
new value = record { count = value; wait_queue = [] }

unfoldable pub wait : ℕ → Semaphore → SemaphoreResult × Semaphore
wait pid s =
    if s.count == 0
    then (SemaphoreResult.block pid, record s { wait_queue = s.wait_queue ++ pid ∷ [] })
    else (SemaphoreResult.ok, record s { count = s.count - 1 })

-- `count` is a `usize`, and the build is a release build: the sum wraps.
unfoldable pub signal : Semaphore → SemaphoreResult × Semaphore
signal s = elim s.wait_queue [
  | [] ↦ (SemaphoreResult.ok, record s { count = (s.count + 1) % 2 ^ 64 })
  | pid ∷ rest ↦ (SemaphoreResult.wake_up pid, record s { wait_queue = rest })
]

-- The calls that a semaphore serves, one after another.
pub data Call : Type 0 where
  waits : ℕ → Call
  signals : Call

unfoldable pub step : Call → Semaphore → SemaphoreResult × Semaphore
unfolding wait signal
step (waits pid) s = wait pid s
step signals s = signal s

-- A semaphore whose queue is in use has no permit left.
abbrev pub IsValid : Semaphore → Type 0
IsValid s = (s.count ≡ 0) ⊎ (s.wait_queue ≡ [])

pub new-IsValid : (value : ℕ) → IsValid (new value)
unfolding new
new-IsValid value = inr refl

pub step-IsValid : (c : Call) (s : Semaphore) → IsValid s → IsValid (step c s).1
unfolding step
step-IsValid (waits pid) s v = ground arith
step-IsValid signals s v = ground arith

-- The semaphore after a history of calls.
unfoldable pub after : List Call → Semaphore → Semaphore
after [] s = s
after (c ∷ cs) s = after cs (step c s).1

pub after-IsValid : (cs : List Call) (s : Semaphore) → IsValid s → IsValid (after cs s)
unfolding after
after-IsValid [] s v = v
after-IsValid (c ∷ cs) s v = after-IsValid cs (step c s).1 (step-IsValid c s v)
