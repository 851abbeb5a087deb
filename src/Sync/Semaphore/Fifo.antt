-- ===== src/Sync/Semaphore/Fifo.antt =====
-- Who is woken by `Semaphore::signal`, over a history of calls of one semaphore.
use yat_sen_os.Prelude.{ℕ, ◌≡◌, sym, ap, ◌∙◌, List, [], ◌∷◌, ◌++◌, arith}
use mathlib.Core.List.{append_assoc, append-nil}
use yat_sen_os.Sync.Semaphore.{Semaphore, SemaphoreResult, Call, waits, signals, new, step, after}

abbrev pub blocked_by : SemaphoreResult → List ℕ
blocked_by (SemaphoreResult.block pid) = pid ∷ []
blocked_by SemaphoreResult.ok = []
blocked_by SemaphoreResult.not_exist = []
blocked_by (SemaphoreResult.wake_up pid) = []

abbrev pub woken_by : SemaphoreResult → List ℕ
woken_by (SemaphoreResult.wake_up pid) = pid ∷ []
woken_by SemaphoreResult.ok = []
woken_by SemaphoreResult.not_exist = []
woken_by (SemaphoreResult.block pid) = []

-- The processes that a history blocks, and those that it wakes, in order.
unfoldable pub blocked : List Call → Semaphore → List ℕ
blocked [] s = []
blocked (c ∷ cs) s = blocked_by (step c s).0 ++ blocked cs (step c s).1

unfoldable pub woken : List Call → Semaphore → List ℕ
woken [] s = []
woken (c ∷ cs) s = woken_by (step c s).0 ++ woken cs (step c s).1

step-queue :
    (c : Call) (s : Semaphore)
    → s.wait_queue ++ blocked_by (step c s).0 ≡ woken_by (step c s).0 ++ (step c s).1.wait_queue
unfolding step
step-queue (waits pid) s = ground (arith, append-nil s.wait_queue)
step-queue signals s = ground (arith, append-nil s.wait_queue)

blocked-woken :
    (cs : List Call) (s : Semaphore)
    → s.wait_queue ++ blocked cs s ≡ woken cs s ++ (after cs s).wait_queue
unfolding blocked woken after
blocked-woken [] s = append-nil s.wait_queue
blocked-woken (c ∷ cs) s =
    sym (append_assoc s.wait_queue (blocked_by (step c s).0) (blocked cs (step c s).1))
    ∙ ap (λ q. q ++ blocked cs (step c s).1) (step-queue c s)
    ∙ append_assoc (woken_by (step c s).0) (step c s).1.wait_queue (blocked cs (step c s).1)
    ∙ ap (◌++◌ (woken_by (step c s).0)) (blocked-woken cs (step c s).1)
    ∙ sym (append_assoc (woken_by (step c s).0) (woken cs (step c s).1) _)

-- From a new semaphore, the processes that a history of calls blocks are, in the order in which
-- they were blocked, those that it wakes, in the order in which they were woken, and after them
-- those that still stand in the queue.
pub blocked-woken_from_new :
    (value : ℕ) (cs : List Call)
    → blocked cs (new value) ≡ woken cs (new value) ++ (after cs (new value)).wait_queue
unfolding new
blocked-woken_from_new value cs = blocked-woken cs (record { count = value; wait_queue = [] })
