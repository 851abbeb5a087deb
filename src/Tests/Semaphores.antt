-- ===== src/Tests/Semaphores.antt =====
-- Semaphores.
use yat_sen_os.Prelude.{◌≡◌, ◌≤◌, ◌⊎◌, refl, [], ◌∷◌, ◌++◌, List, some, is_none, is_some, arith}
use yat_sen_os.Sync.Semaphore.{Semaphore, Call, waits, signals, new, after}
use yat_sen_os.Sync.Semaphore
use yat_sen_os.Sync.Semaphore.Fifo.{blocked, woken, blocked-woken_from_new}
use yat_sen_os.Sync.Semaphore.Permits.{acquired, acquired_bound}
use yat_sen_os.Sync.SemaphoreSet.{
  SemaphoreSet, sem, answer, touched, insert-sem, remove-sem, wait-sem, signal-sem,
}
use yat_sen_os.Sync.SemaphoreSet

-- One permit: the processes 3 and 4 get in line behind 2, then two leave.
abbrev history : List Call
history = waits 2 ∷ waits 3 ∷ waits 4 ∷ signals ∷ []

woken_first : woken history (new 1) ≡ 3 ∷ []
unfolding woken Semaphore.step new
woken_first = refl

blocked-woken_example :
    blocked history (new 1) ≡ woken history (new 1) ++ (after history (new 1)).wait_queue
blocked-woken_example = blocked-woken_from_new 1 history

acquired_bound_example :
    (acquired history (new 1) ≡ 2)
    ⊎ (((after history (new 1)).wait_queue ≡ []) × (acquired history (new 1) ≤ 2))
acquired_bound_example = acquired_bound 1 history (omega arith)

abbrev set : SemaphoreSet
set = record { sems = (7, record { count = 0; wait_queue = 5 ∷ [] }) ∷ [] }

insert-sem_run :
    ((SemaphoreSet.insert 7 2 set).0 ≡ is_none (sem set 7))
    × (sem (SemaphoreSet.insert 7 2 set).1 7 ≡ some (new 2))
insert-sem_run = insert-sem 7 2 7 set

remove-sem_run :
    ((SemaphoreSet.remove 7 set).0 ≡ is_some (sem set 7))
    × (sem (SemaphoreSet.remove 7 set).1 8 ≡ sem set 8)
remove-sem_run = remove-sem 7 8 set

wait-sem_run :
    ((SemaphoreSet.wait 7 2 set).0 ≡ answer (Semaphore.wait 2) (sem set 7))
    × (sem (SemaphoreSet.wait 7 2 set).1 7 ≡ touched (Semaphore.wait 2) 7 7 set)
wait-sem_run = wait-sem 7 2 7 set

signal-sem_run :
    ((SemaphoreSet.signal 7 set).0 ≡ answer Semaphore.signal (sem set 7))
    × (sem (SemaphoreSet.signal 7 set).1 7 ≡ touched Semaphore.signal 7 7 set)
signal-sem_run = signal-sem 7 7 set
