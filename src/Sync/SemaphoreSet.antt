-- ===== src/Sync/SemaphoreSet.antt =====
-- `SemaphoreSet` of src/0x01/pkg/kernel/src/proc/sync.rs: the semaphores that a process and its
-- forks share, by key.
use yat_sen_os.Prelude.{
  ℕ, ◌≡◌, refl, Bool, Option, none, some, [], arith, ◌==◌, if◌then◌else◌, is_none, is_some,
}
use yat_sen_os.BTreeMap.{Map, get, modify, get-insert, get-remove, get-modify}
use yat_sen_os.BTreeMap
use mathlib.Core.Option
use yat_sen_os.Sync.Semaphore
use yat_sen_os.Sync.Semaphore.{Semaphore, SemaphoreResult}

pub record SemaphoreSet : Type 0 where
  pub sems : Map Semaphore

unfoldable pub empty : SemaphoreSet
empty = record { sems = [] }

unfoldable pub insert : ℕ → ℕ → SemaphoreSet → Bool × SemaphoreSet
insert key value s =
    (is_none (get key s.sems), record s { sems = BTreeMap.insert key (Semaphore.new value) s.sems })

unfoldable pub remove : ℕ → SemaphoreSet → Bool × SemaphoreSet
remove key s = (is_some (get key s.sems), record s { sems = BTreeMap.remove key s.sems })

unfoldable pub wait : ℕ → ℕ → SemaphoreSet → SemaphoreResult × SemaphoreSet
wait key pid s = elim (get key s.sems) [
  | some sem ↦ (
    (Semaphore.wait pid sem).0,
    record s { sems = modify key (λ t. (Semaphore.wait pid t).1) s.sems },
  )
  | none ↦ (SemaphoreResult.not_exist, s)
]

unfoldable pub signal : ℕ → SemaphoreSet → SemaphoreResult × SemaphoreSet
signal key s = elim (get key s.sems) [
  | some sem ↦ (
    (Semaphore.signal sem).0,
    record s { sems = modify key (λ t. (Semaphore.signal t).1) s.sems },
  )
  | none ↦ (SemaphoreResult.not_exist, s)
]

-- The semaphore of a key.
abbrev pub sem : SemaphoreSet → ℕ → Option Semaphore
sem s key = get key s.sems

-- `insert` answers whether the key was free, puts a new semaphore there, also where one was, and
-- changes no other key.
pub insert-sem :
    (key value k : ℕ) (s : SemaphoreSet)
    → ((insert key value s).0 ≡ is_none (sem s key))
      × (sem (insert key value s).1 k ≡ (if key == k then some (Semaphore.new value) else sem s k))
unfolding insert
insert-sem key value k s = (refl, get-insert key k (Semaphore.new value) s.sems)

-- `remove` answers whether the key was taken, frees it, and changes no other key.
pub remove-sem :
    (key k : ℕ) (s : SemaphoreSet)
    → ((remove key s).0 ≡ is_some (sem s key))
      × (sem (remove key s).1 k ≡ (if key == k then none else sem s k))
unfolding remove
remove-sem key k s = (refl, get-remove key k s.sems)

-- The answer of a call on one semaphore, where there is one.
abbrev pub answer : (Semaphore → SemaphoreResult × Semaphore) → Option Semaphore → SemaphoreResult
answer f none = SemaphoreResult.not_exist
answer f (some t) = (f t).0

-- The semaphores after such a call at `key`, at the key `k`.
abbrev pub touched :
    (Semaphore → SemaphoreResult × Semaphore) → ℕ → ℕ → SemaphoreSet → Option Semaphore
touched f key k s = if key == k then Option.map (λ t. (f t).1) (sem s k) else sem s k

-- `wait` on the set answers what `wait` on the semaphore of the key answers, `NotExist` without one,
-- leaves there what that call leaves, and changes no other key.
pub wait-sem :
    (key pid k : ℕ) (s : SemaphoreSet)
    → ((wait key pid s).0 ≡ answer (Semaphore.wait pid) (sem s key))
      × (sem (wait key pid s).1 k ≡ touched (Semaphore.wait pid) key k s)
unfolding wait
wait-sem key pid k s = ground (arith, get-modify key k (λ t. (Semaphore.wait pid t).1) s.sems)

-- `signal` on the set answers what `signal` on the semaphore of the key answers, `NotExist` without
-- one, leaves there what that call leaves, and changes no other key.
pub signal-sem :
    (key k : ℕ) (s : SemaphoreSet)
    → ((signal key s).0 ≡ answer Semaphore.signal (sem s key))
      × (sem (signal key s).1 k ≡ touched Semaphore.signal key k s)
unfolding signal
signal-sem key k s = ground (arith, get-modify key k (λ t. (Semaphore.signal t).1) s.sems)
