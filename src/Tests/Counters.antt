-- ===== src/Tests/Counters.antt =====
-- The counter of src/0x01/pkg/app/counter/src/main.rs after the first increment.
use yat_sen_os.Prelude.{ℕ, ◌+◌, ◌≡◌, refl, set, total}
use yat_sen_os.App.Counter.{
  Place, Thread, World, do_counter_inc, Step, act, here, next, forked, start,
}
use yat_sen_os.App.Counter.Exact.{missing, counter-missing}

abbrev thread_at : Place → ℕ → Thread
thread_at place val = record { place = place; val = val; left = 100 }

abbrev world_at : Place → ℕ → ℕ → World
world_at place val counter = record {
  threads = set (forked 8) 0 (thread_at place val);
  counter = counter;
  semaphore = 0;
}

waited : Step start (world_at Place.locked 0 0)
unfolding start forked do_counter_inc
waited = act start 0 (thread_at Place.idle 0) (thread_at Place.locked 0) 0 0 refl refl refl

read : Step (world_at Place.locked 0 0) (world_at Place.loaded 0 0)
unfolding forked do_counter_inc
read =
    act (world_at Place.locked 0 0) 0 (thread_at Place.locked 0) (thread_at Place.loaded 0) 0 0 refl
      refl refl

increased : Step (world_at Place.loaded 0 0) (world_at Place.added 1 0)
unfolding forked do_counter_inc
increased =
    act (world_at Place.loaded 0 0) 0 (thread_at Place.loaded 0) (thread_at Place.added 1) 0 0 refl
      refl refl

written : Step (world_at Place.added 1 0) (world_at Place.stored 1 1)
unfolding forked do_counter_inc
written =
    act (world_at Place.added 1 0) 0 (thread_at Place.added 1) (thread_at Place.stored 1) 1 0 refl
      refl refl

counter-missing_example : 1 + total missing (world_at Place.stored 1 1).threads ≡ 800
counter-missing_example =
    counter-missing (next (next (next (next here waited) read) increased) written)
