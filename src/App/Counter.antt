-- ===== src/App/Counter.antt =====
-- The counter of src/0x01/pkg/app/counter/src/main.rs. The threads share it, and the semaphore is the
-- number of its permits. Printing and the delays are left out.
pub mod Exact
use yat_sen_os.Prelude.{
  ℕ, zero, suc, ◌+◌, ◌-◌, ◌%◌, ◌^◌, Option, some, none, List, [], ◌∷◌, ltb, set, get_elem?, ◌≡◌,
  true,
}

abbrev pub thread_count : ℕ
thread_count = 8

-- The rounds of `do_counter_inc`.
abbrev pub rounds : ℕ
rounds = 100

-- Where a thread is in a round of `do_counter_inc`: before `wait`, before `COUNTER` is read, before
-- the addition, before `COUNTER` is written, before `signal`.
pub data Place : Type 0 where
  idle locked loaded added stored : Place

pub record Thread : Type 0 where
  pub place : Place
  pub val : ℕ
  pub left : ℕ

pub record World : Type 0 where
  pub threads : List Thread
  pub counter : ℕ
  pub semaphore : ℕ

-- What a statement leaves of the thread, the counter and the permits; a `wait` without a permit does
-- not return.
abbrev pub Effect : Type 0
Effect = Option (Thread × ℕ × ℕ)

abbrev pub wait : ℕ → ℕ → Thread → Effect
wait counter zero t = none
wait counter (suc permits) t = some (record t { place = Place.locked }, counter, permits)

unfoldable pub do_counter_inc : Place → Thread → ℕ → ℕ → Effect
do_counter_inc Place.idle t counter semaphore = wait counter semaphore t
do_counter_inc Place.locked t counter semaphore =
    some (record t { place = Place.loaded; val = counter }, counter, semaphore)
do_counter_inc Place.loaded t counter semaphore =
    some (record t { place = Place.added; val = (t.val + 1) % 2 ^ 64 }, counter, semaphore)
do_counter_inc Place.added t counter semaphore =
    some (record t { place = Place.stored }, t.val, semaphore)
do_counter_inc Place.stored t counter semaphore =
    some (record t { place = Place.idle; left = t.left - 1 }, counter, semaphore + 1)

-- One statement of a thread that has rounds left returns.
pub data Step : World → World → Type 0 where
  act :
      (w : World) (i : ℕ) (t t' : Thread) (counter semaphore : ℕ)
      → get_elem? w.threads i ≡ some t
      → ltb 0 t.left ≡ true
      → do_counter_inc t.place t w.counter w.semaphore ≡ some (t', counter, semaphore)
      → Step w (record { threads = set w.threads i t'; counter = counter; semaphore = semaphore })

pub data Reach (w : World) : World → Type 0 where
  here : Reach w w
  next : {u v : World} → Reach w u → Step u v → Reach w v

unfoldable pub forked : ℕ → List Thread
forked zero = []
forked (suc n) = record { place = Place.idle; val = 0; left = rounds } ∷ forked n

-- After `SEMAPHORE.init(1)` and the forks.
unfoldable pub start : World
unfolding forked
start = record { threads = forked thread_count; counter = 0; semaphore = 1 }
