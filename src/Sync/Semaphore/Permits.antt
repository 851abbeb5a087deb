-- ===== src/Sync/Semaphore/Permits.antt =====
-- How many calls of a history get the semaphore.
use yat_sen_os.Prelude.{ℕ, ◌+◌, ◌^◌, ◌≤◌, ◌<◌, ◌≡◌, ◌⊎◌, inl, inr, List, [], ◌∷◌, arith}
use yat_sen_os.Sync.Semaphore.{
  Semaphore, SemaphoreResult, Call, waits, signals, new, step, after, new-IsValid, after-IsValid,
}

-- A `wait` that returns `Ok` gets the semaphore at once, and a `signal` that wakes a process hands
-- it to that process.
abbrev pub acquired_by : Call → SemaphoreResult → ℕ
acquired_by (waits pid) SemaphoreResult.ok = 1
acquired_by (waits pid) SemaphoreResult.not_exist = 0
acquired_by (waits pid) (SemaphoreResult.block p) = 0
acquired_by (waits pid) (SemaphoreResult.wake_up p) = 1
acquired_by signals SemaphoreResult.ok = 0
acquired_by signals SemaphoreResult.not_exist = 0
acquired_by signals (SemaphoreResult.block p) = 0
acquired_by signals (SemaphoreResult.wake_up p) = 1

unfoldable pub acquired : List Call → Semaphore → ℕ
acquired [] s = 0
acquired (c ∷ cs) s = acquired_by c (step c s).0 + acquired cs (step c s).1

abbrev pub signalled : Call → ℕ
signalled (waits pid) = 0
signalled signals = 1

abbrev pub signal_count : List Call → ℕ
signal_count [] = 0
signal_count (c ∷ cs) = signalled c + signal_count cs

step-count :
    (c : Call) (s : Semaphore)
    → s.count + signalled c < 2 ^ 64
    → s.count + signalled c ≡ (step c s).1.count + acquired_by c (step c s).0
unfolding step
step-count (waits pid) s h = ground arith
step-count signals s h = ground arith

acquired-count :
    (cs : List Call) (s : Semaphore)
    → s.count + signal_count cs < 2 ^ 64
    → s.count + signal_count cs ≡ (after cs s).count + acquired cs s
unfolding acquired after
acquired-count [] s h = omega arith
acquired-count (c ∷ cs) s h =
    let one = step-count c s (omega arith) in
    omega (arith, one, acquired-count cs (step c s).1 (omega (arith, one)))

-- From a new semaphore of `value`, and as long as `value` and the signals stay below 2^64: the calls
-- that got the semaphore are exactly as many as `value` and the signals, or nobody stands in the
-- queue and they are at most as many.
pub acquired_bound :
    (value : ℕ) (cs : List Call)
    → value + signal_count cs < 2 ^ 64
    → (acquired cs (new value) ≡ value + signal_count cs)
      ⊎ (((after cs (new value)).wait_queue ≡ [])
          × (acquired cs (new value) ≤ value + signal_count cs))
unfolding new
acquired_bound value cs h =
    let s : Semaphore = record { count = value; wait_queue = [] } in
    let total = acquired-count cs s h in
    elim (after-IsValid cs s (new-IsValid value)) [
      | inl no_permit ↦ inl (omega (arith, total, no_permit))
      | inr idle ↦ inr (idle, omega (arith, total))
    ]
