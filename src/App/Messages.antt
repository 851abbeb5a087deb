-- ===== src/App/Messages.antt =====
-- The message queue of src/0x01/pkg/app/md/src/main.rs. The threads share the queue; a semaphore is
-- the number of its permits, and a `wait` returns where there is one. Printing is left out.
pub mod Counts
pub mod Statements
pub mod Bounded
pub mod Room
pub mod Balanced
pub mod Progress
pub mod Work
use yat_sen_os.Prelude.{
  ℕ, zero, suc, ◌+◌, ◌-◌, ◌%◌, ◌/◌, Bool, true, false, Option, some, none, List, [], ◌∷◌, ltb,
  if◌then◌else◌, set, get_elem?, ◌≡◌, Outcome, ok, panic, ◌>>=◌,
}

abbrev pub thread_count : ℕ
thread_count = 16

abbrev pub max_message_size : ℕ
max_message_size = 10

abbrev pub queue_size : ℕ
queue_size = max_message_size + 1

pub record MessageQueue : Type 0 where
  pub queue : List ℕ
  pub head : ℕ
  pub tail : ℕ

-- What the threads share: the queue and the permits.
pub record Shared : Type 0 where
  pub messages : MessageQueue
  pub empty : ℕ
  pub full : ℕ
  pub write_mutex : ℕ

-- `queue[at] = value`, which is checked.
unfoldable pub store : ℕ → ℕ → MessageQueue → Outcome MessageQueue
store at value q =
    if ltb at queue_size then ok (record q { queue = set q.queue at value }) else panic

abbrev pub advance : ℕ → ℕ
advance at = (at + 1) % queue_size

pub data Role : Type 0 where
  writer reader : Role

-- Where a thread is in `write_message` or `read_message`: before the first `wait`, before the
-- second, before the store, before the index moves, before the first `signal`, before the second.
pub data Place : Type 0 where
  idle granted locked stored moved unlocked : Place

-- A thread: the message that comes next, and how many are left.
pub record Thread : Type 0 where
  pub role : Role
  pub place : Place
  pub message : ℕ
  pub left : ℕ

-- A `wait` takes a permit; without one it does not return.
abbrev pub take : ℕ → Option ℕ
take zero = none
take (suc n) = some n

-- What the next statement of a thread does to what is shared; `none` where it waits.
abbrev pub with_empty : Shared → Option ℕ → Outcome (Option Shared)
with_empty s none = ok none
with_empty s (some n) = ok (some (record s { empty = n }))

abbrev pub with_full : Shared → Option ℕ → Outcome (Option Shared)
with_full s none = ok none
with_full s (some n) = ok (some (record s { full = n }))

abbrev pub with_mutex : Shared → Option ℕ → Outcome (Option Shared)
with_mutex s none = ok none
with_mutex s (some n) = ok (some (record s { write_mutex = n }))

abbrev pub with_messages : Shared → Outcome MessageQueue → Outcome (Option Shared)
with_messages s call = do q ← call; ok (some (record s { messages = q }))

unfoldable pub write_message : Place → ℕ → Shared → Outcome (Option Shared)
unfolding store
write_message Place.idle message s = with_empty s (take s.empty)
write_message Place.granted message s = with_mutex s (take s.write_mutex)
write_message Place.locked message s = with_messages s (store s.messages.tail message s.messages)
write_message Place.stored message s =
    ok (some (record s { messages = record (s.messages) { tail = advance s.messages.tail } }))
write_message Place.moved message s = ok (some (record s { write_mutex = s.write_mutex + 1 }))
write_message Place.unlocked message s = ok (some (record s { full = s.full + 1 }))

unfoldable pub read_message : Place → Shared → Outcome (Option Shared)
unfolding store
read_message Place.idle s = with_full s (take s.full)
read_message Place.granted s = with_mutex s (take s.write_mutex)
read_message Place.locked s = with_messages s (store s.messages.head 0 s.messages)
read_message Place.stored s =
    ok (some (record s { messages = record (s.messages) { head = advance s.messages.head } }))
read_message Place.moved s = ok (some (record s { write_mutex = s.write_mutex + 1 }))
read_message Place.unlocked s = ok (some (record s { empty = s.empty + 1 }))

unfoldable pub perform : Role → Place → ℕ → Shared → Outcome (Option Shared)
unfolding write_message read_message
perform Role.writer place message s = write_message place message s
perform Role.reader place message s = read_message place s

-- The place after the statement; after the last one the loop of the thread goes on.
unfoldable pub go_on : Place → Thread → Thread
go_on Place.idle t = record t { place = Place.granted }
go_on Place.granted t = record t { place = Place.locked }
go_on Place.locked t = record t { place = Place.stored }
go_on Place.stored t = record t { place = Place.moved }
go_on Place.moved t = record t { place = Place.unlocked }
go_on Place.unlocked t = record t { place = Place.idle; message = t.message + 1; left = t.left - 1 }

pub record World : Type 0 where
  pub threads : List Thread
  pub shared : Shared

-- One statement of a thread that has messages left returns.
pub data Step : World → World → Type 0 where
  act :
      (w : World) (i : ℕ) (t : Thread) (s : Shared)
      → get_elem? w.threads i ≡ some t
      → ltb 0 t.left ≡ true
      → perform t.role t.place t.message w.shared ≡ ok (some s)
      → Step w (record { threads = set w.threads i (go_on t.place t); shared = s })

pub data Reach (w : World) : World → Type 0 where
  here : Reach w w
  next : {u v : World} → Reach w u → Step u v → Reach w v

-- The threads of the numbers from `i`, `n` of them.
unfoldable pub forked : ℕ → ℕ → List Thread
forked i zero = []
forked i (suc n) =
    let others = forked (i + 1) n in
    let role = if ltb i (thread_count / 2) then Role.writer else Role.reader in
    record { role = role; place = Place.idle; message = i; left = max_message_size } ∷ others

unfoldable pub zeros : ℕ → List ℕ
zeros zero = []
zeros (suc n) = 0 ∷ zeros n

unfoldable pub start : World
unfolding forked zeros
start = record {
  threads = forked 0 thread_count;
  shared = record {
    messages = record { queue = zeros queue_size; head = 0; tail = 0 };
    empty = max_message_size;
    full = 0;
    write_mutex = 1;
  };
}
