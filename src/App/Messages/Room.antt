-- ===== src/App/Messages/Room.antt =====
-- What a thread finds in the shared data of the message queue of src/0x01/pkg/app/md/src/main.rs.
use yat_sen_os.Prelude.{
  total_two, total_room, ◌+◌, ◌%◌, ◌<◌, ◌≡◌, ap, Option, some, get_elem?, ok, arith, ℕ_discrete,
  subst, sym, inl, inr, ℕ,
}
use yat_sen_os.App.Messages.{
  queue_size, max_message_size, Shared, Role, Place, Thread, perform, World, Reach, start,
}
use yat_sen_os.App.Messages.Counts.{
  held_at, held, inside, passing, pending, passing_le, passing_at, role_cases,
}
use yat_sen_os.App.Messages.Statements.{perform_ok}
use yat_sen_os.App.Messages.Bounded.{Reach-IsBounded}

-- A writer finds room for one message more, and a reader finds a message.
abbrev pub HasRoom : Role → ℕ → Type 0
HasRoom Role.writer n = n < max_message_size
HasRoom Role.reader n = 0 < n

-- In every world that is reached, a thread that is about to store stands at an index inside the
-- queue; a writer finds room for one message more, and a reader finds a message.
pub store-room :
    {w : World} (i : ℕ) (t : Thread)
    → Reach start w
    → get_elem? w.threads i ≡ some t
    → t.place ≡ Place.locked
    → (w.shared.messages.head < queue_size)
      × (w.shared.messages.tail ≡ (w.shared.messages.head + pending w) % queue_size)
      × HasRoom t.role (pending w)
store-room {w = w} i t r at place =
    let b = Reach-IsBounded r in
    let permits = b.permits in
    let held1 : held t ≡ 1 = ap held_at place in
    let room = total_room passing held _ i t passing_le at in
    let some_passing = total_room (λ u. 0) passing _ i t (λ u. omega arith) at in
    (
      b.head_inside,
      b.tail_at,
      elim (role_cases t.role) [
        | inl er ↦
            let none_passing = passing_at t Role.writer Place.locked er place in
            subst (λ q. HasRoom q (pending w)) (sym er) (omega arith)
        | inr er ↦
            let one_passing = passing_at t Role.reader Place.locked er place in
            subst (λ q. HasRoom q (pending w)) (sym er) (omega arith)
      ],
    )

-- No thread panics in a world that is reached.
pub perform-returns :
    {w : World} (t : Thread)
    → Reach start w
    → (out : Option Shared) × (perform t.role t.place t.message w.shared ≡ ok out)
perform-returns t r =
    let b = Reach-IsBounded r in
    let low = b.head_inside in
    let at = b.tail_at in perform_ok t.role t.place t.message _ low (omega arith)

-- No two threads are between `wait` and `signal` of `WRITE_MUTEX`.
pub inside_once :
    {w : World} (i j : ℕ) (t u : Thread)
    → Reach start w
    → get_elem? w.threads i ≡ some t
    → get_elem? w.threads j ≡ some u
    → inside t ≡ 1
    → inside u ≡ 1
    → i ≡ j
inside_once i j t u r at at' in_t in_u = elim (ℕ_discrete i j) [
  | yes e ↦ e
  | no ne ↦
      let b = Reach-IsBounded r in
      let alone = b.alone in let two = total_two inside _ i j t u at at' ne in absurd (omega arith)
]
