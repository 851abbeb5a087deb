-- ===== src/Tests/Queues.antt =====
-- The message queue of src/0x01/pkg/app/md/src/main.rs after its first statements.
use yat_sen_os.Prelude.{total, ℕ, ◌+◌, ◌%◌, ◌<◌, ◌≡◌, refl, set, ◌⊎◌}
use yat_sen_os.App.Messages.{
  queue_size, Shared, Role, Place, Thread, write_message, perform, go_on, World, Step, act, Reach,
  here, next, forked, zeros, start,
}
use yat_sen_os.App.Messages.Counts.{pending}
use yat_sen_os.App.Messages.Room.{store-room}
use yat_sen_os.App.Messages.Progress.{left, CanGo, progress}
use yat_sen_os.App.Messages.Work.{work, steps-work}

abbrev writer_at : Place → Thread
writer_at place = record { role = Role.writer; place = place; message = 0; left = 10 }

abbrev permits : ℕ → ℕ → Shared
permits empty write_mutex = record {
  messages = record { queue = zeros queue_size; head = 0; tail = 0 };
  empty = empty;
  full = 0;
  write_mutex = write_mutex;
}

-- The first writer has passed both semaphores.
abbrev one_passed : World
one_passed = record {
  threads = set (forked 0 16) 0 (writer_at Place.granted);
  shared = permits 9 1;
}

abbrev at_queue : World
at_queue = record { threads = set (forked 0 16) 0 (writer_at Place.locked); shared = permits 9 0 }

first : Step start one_passed
unfolding start forked zeros perform write_message go_on
first = act start 0 (writer_at Place.idle) (permits 9 1) refl refl refl

second : Step one_passed at_queue
unfolding start forked zeros perform write_message go_on
second = act one_passed 0 (writer_at Place.granted) (permits 9 0) refl refl refl

abbrev reached : Reach start at_queue
reached = next (next here first) second

store-room_example : (0 < 11) × (0 ≡ (0 + pending at_queue) % 11) × (pending at_queue < 10)
store-room_example = store-room 0 (writer_at Place.locked) reached (unfold forked in refl) refl

progress_example : ((total left at_queue.threads ≡ 0) × (pending at_queue ≡ 0)) ⊎ CanGo at_queue
progress_example = progress reached

steps-work_example : 2 + total work at_queue.threads ≡ 960
steps-work_example = steps-work reached
