-- ===== src/App/Messages/Counts.antt =====
-- Sums over the threads of the message queue of src/0x01/pkg/app/md/src/main.rs.
use yat_sen_os.Prelude.{total, ◌+◌, ◌≤◌, ◌≡◌, refl, ap, ◌∙◌, arith, ◌⊎◌, inl, inr, ℕ}
use yat_sen_os.App.Messages.{Role, Place, Thread, go_on, World}

-- The thread has one of the permits of `EMPTY` and `FULL`.
abbrev pub held_at : Place → ℕ
held_at Place.idle = 0
held_at p = 1

abbrev pub held : Thread → ℕ
held t = held_at t.place

-- The thread has the permit of `WRITE_MUTEX`.
abbrev pub inside_at : Place → ℕ
inside_at Place.locked = 1
inside_at Place.stored = 1
inside_at Place.moved = 1
inside_at p = 0

abbrev pub inside : Thread → ℕ
inside t = inside_at t.place

-- A message that is in the queue and has no permit of `FULL`: it was just written, or is read.
abbrev pub underway : Role → Place → ℕ
underway Role.writer Place.moved = 1
underway Role.writer Place.unlocked = 1
underway Role.reader Place.granted = 1
underway Role.reader Place.locked = 1
underway Role.reader Place.stored = 1
underway r p = 0

abbrev pub passing : Thread → ℕ
passing t = underway t.role t.place

-- The number of messages in the queue.
abbrev pub pending : World → ℕ
pending w = w.shared.full + total passing w.threads

place_le : (r : Role) (p : Place) → underway r p ≤ held_at p
place_le Role.writer Place.idle = omega arith
place_le Role.writer Place.granted = omega arith
place_le Role.writer Place.locked = omega arith
place_le Role.writer Place.stored = omega arith
place_le Role.writer Place.moved = omega arith
place_le Role.writer Place.unlocked = omega arith
place_le Role.reader Place.idle = omega arith
place_le Role.reader Place.granted = omega arith
place_le Role.reader Place.locked = omega arith
place_le Role.reader Place.stored = omega arith
place_le Role.reader Place.moved = omega arith
place_le Role.reader Place.unlocked = omega arith

pub passing_le : (t : Thread) → passing t ≤ held t
passing_le t = place_le t.role t.place

abbrev pub after : Place → Place
after Place.idle = Place.granted
after Place.granted = Place.locked
after Place.locked = Place.stored
after Place.stored = Place.moved
after Place.moved = Place.unlocked
after Place.unlocked = Place.idle

pub go_on-place : (p : Place) (t : Thread) → (go_on p t).place ≡ after p
unfolding go_on
go_on-place Place.idle t = refl
go_on-place Place.granted t = refl
go_on-place Place.locked t = refl
go_on-place Place.stored t = refl
go_on-place Place.moved t = refl
go_on-place Place.unlocked t = refl

pub go_on-role : (p : Place) (t : Thread) → (go_on p t).role ≡ t.role
unfolding go_on
go_on-role Place.idle t = refl
go_on-role Place.granted t = refl
go_on-role Place.locked t = refl
go_on-role Place.stored t = refl
go_on-role Place.moved t = refl
go_on-role Place.unlocked t = refl

pub passing_at :
    (t : Thread) (r : Role) (p : Place) → t.role ≡ r → t.place ≡ p → passing t ≡ underway r p
passing_at t r p er ep = ap (λ q. underway t.role q) ep ∙ ap (λ q. underway q p) er

pub role_cases : (r : Role) → (r ≡ Role.writer) ⊎ (r ≡ Role.reader)
role_cases Role.writer = inl refl
role_cases Role.reader = inr refl
