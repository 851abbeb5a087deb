-- ===== src/App/Messages/Progress.antt =====
-- That the threads of the message queue of src/0x01/pkg/app/md/src/main.rs come to an end.
use yat_sen_os.Prelude.{
  found, total, total_le, weighs, ◌+◌, ◌≤◌, ◌<◌, ◌≡◌, refl, sym, ◌∙◌, some, get_elem?, ok, arith,
  inl, inr, ◌≢◌, ◌⊎◌, ℕ_discrete, lt→ltb, ℕ, zero, suc,
}
use yat_sen_os.App.Messages.{
  Shared, store, Role, Place, Thread, take, with_empty, with_full, with_mutex, with_messages,
  write_message, read_message, perform, World, Step, act, Reach, start,
}
use yat_sen_os.App.Messages.Counts.{
  held_at, held, inside_at, inside, passing, pending, passing_le, role_cases,
}
use yat_sen_os.App.Messages.Bounded.{IsBounded, Reach-IsBounded}
use yat_sen_os.App.Messages.Balanced.{
  IsBalanced, Reach-IsBalanced, supply, demand, excess, supply_at, demand_at,
}

store_some :
    (s : Shared) (at value : ℕ)
    → at < 11
    → (s' : Shared) × (with_messages s (store at value s.messages) ≡ ok (some s'))
unfolding store
store_some s at value low = rw (lt→ltb at 11 low) (_, refl)

empty_some : (s : Shared) (m : ℕ) → 0 < m → (s' : Shared) × (with_empty s (take m) ≡ ok (some s'))
empty_some s zero h = absurd (omega arith)
empty_some s (suc n) h = (_, refl)

full_some : (s : Shared) (m : ℕ) → 0 < m → (s' : Shared) × (with_full s (take m) ≡ ok (some s'))
full_some s zero h = absurd (omega arith)
full_some s (suc n) h = (_, refl)

mutex_some : (s : Shared) (m : ℕ) → 0 < m → (s' : Shared) × (with_mutex s (take m) ≡ ok (some s'))
mutex_some s zero h = absurd (omega arith)
mutex_some s (suc n) h = (_, refl)

-- A thread that has begun a message goes on, where nothing keeps it from the queue.
goes :
    (r : Role) (p : Place) (message : ℕ) (s : Shared)
    → s.messages.head < 11
    → s.messages.tail < 11
    → 0 < held_at p
    → 0 < inside_at p + s.write_mutex
    → (s' : Shared) × (perform r p message s ≡ ok (some s'))
unfolding perform write_message read_message
goes Role.writer Place.idle message s h t begun free = absurd (omega arith)
goes Role.writer Place.granted message s h t begun free = mutex_some s s.write_mutex (omega arith)
goes Role.writer Place.locked message s h t begun free = store_some s s.messages.tail message t
goes Role.writer Place.stored message s h t begun free = (_, refl)
goes Role.writer Place.moved message s h t begun free = (_, refl)
goes Role.writer Place.unlocked message s h t begun free = (_, refl)
goes Role.reader Place.idle message s h t begun free = absurd (omega arith)
goes Role.reader Place.granted message s h t begun free = mutex_some s s.write_mutex (omega arith)
goes Role.reader Place.locked message s h t begun free = store_some s s.messages.head 0 h
goes Role.reader Place.stored message s h t begun free = (_, refl)
goes Role.reader Place.moved message s h t begun free = (_, refl)
goes Role.reader Place.unlocked message s h t begun free = (_, refl)

inside_le : (p : Place) → inside_at p ≤ held_at p
inside_le Place.idle = omega arith
inside_le Place.granted = omega arith
inside_le Place.locked = omega arith
inside_le Place.stored = omega arith
inside_le Place.moved = omega arith
inside_le Place.unlocked = omega arith

idle_of : (p : Place) → held_at p ≡ 0 → p ≡ Place.idle
idle_of Place.idle e = refl
idle_of Place.granted e = absurd (omega arith)
idle_of Place.locked e = absurd (omega arith)
idle_of Place.stored e = absurd (omega arith)
idle_of Place.moved e = absurd (omega arith)
idle_of Place.unlocked e = absurd (omega arith)

-- An idle thread begins a message, where there is a permit for its role.
begins :
    (r : Role) (p : Place) (message : ℕ) (s : Shared)
    → p ≡ Place.idle
    → (r ≡ Role.writer → 0 < s.empty)
    → (r ≡ Role.reader → 0 < s.full)
    → (s' : Shared) × (perform r p message s ≡ ok (some s'))
unfolding perform write_message read_message
begins Role.writer p message s e empty full = rw e (empty_some s s.empty (empty refl))
begins Role.reader p message s e empty full = rw e (full_some s s.full (full refl))

reader≢writer : Role.reader ≢ Role.writer
reader≢writer e = cc

abbrev pub left : Thread → ℕ
left t = t.left

abbrev pub CanGo : World → Type 0
CanGo w = (v : World) × Step w v

module _ (w : World) (b : IsBounded w) (c : IsBalanced w) where
  has_more : (i : ℕ) (t : Thread) → get_elem? w.threads i ≡ some t → 0 < held t → 0 < t.left
  has_more i t at h =
      let none_over = weighs excess w.threads i t at in let clean = c.no_excess in omega arith

  tail_inside : w.shared.messages.tail < 11
  tail_inside = let at = b.tail_at in omega arith

  move :
      (i : ℕ) (t : Thread)
      → get_elem? w.threads i ≡ some t
      → 0 < t.left
      → (s : Shared) × (perform t.role t.place t.message w.shared ≡ ok (some s))
      → CanGo w
  move i t at more (s, e) = (_, act w i t s at (lt→ltb 0 t.left more) e)

  -- A thread is at the queue, or some thread has begun and none is at the queue.
  begun_goes : 0 < total held w.threads → CanGo w
  begun_goes some_held = elim (ℕ_discrete w.shared.write_mutex 0) [
    | yes e ↦
        let alone = b.alone in
        let (i, t, at, pos) = found inside w.threads (omega arith) in
        let le = inside_le t.place in
        move i t at (has_more i t at (omega arith)) (
          goes t.role t.place t.message w.shared b.head_inside tail_inside (omega arith)
            (omega arith))
    | no ne ↦
        let (i, t, at, pos) = found held w.threads some_held in
        move i t at (has_more i t at pos)
          (goes t.role t.place t.message w.shared b.head_inside tail_inside pos (omega arith))
  ]

  idle_thread :
      (i : ℕ) (t : Thread) → total held w.threads ≡ 0 → get_elem? w.threads i ≡ some t → held t ≡ 0
  idle_thread i t none_held at = let le = weighs held w.threads i t at in omega arith

  -- Nobody has begun: a reader that waits finds a permit, or a writer does.
  reader_goes : total held w.threads ≡ 0 → 0 < total demand w.threads → 0 < w.shared.full → CanGo w
  reader_goes none_held wanted there =
      let (i, t, at, pos) = found demand w.threads wanted in
      let idle = idle_of t.place (idle_thread i t none_held at) in
      elim (role_cases t.role) [
        | inl er ↦ let none_wanted = demand_at t Role.writer t.left er refl in absurd (omega arith)
        | inr er ↦
            let some_wanted = demand_at t Role.reader t.left er refl in
            move i t at (omega arith) (
              begins t.role t.place t.message w.shared idle
                (λ er'. absurd (reader≢writer (sym er ∙ er'))) (λ er'. there))
      ]

  writer_goes : total held w.threads ≡ 0 → 0 < total supply w.threads → 0 < w.shared.empty → CanGo w
  writer_goes none_held coming there =
      let (i, t, at, pos) = found supply w.threads coming in
      let none_by_t = idle_thread i t none_held at in
      let idle = idle_of t.place none_by_t in
      elim (role_cases t.role) [
        | inl er ↦
            let some_coming = supply_at t Role.writer t.place t.left er refl refl in
            move i t at (omega arith) (
              begins t.role t.place t.message w.shared idle (λ er'. there)
                (λ er'. absurd (reader≢writer (sym er' ∙ er))))
        | inr er ↦
            let none_coming = supply_at t Role.reader t.place t.left er refl refl in
            absurd (omega arith)
      ]

  -- Nothing is wanted and nothing comes.
  finished : total supply w.threads ≡ 0 → total demand w.threads ≡ 0 → total left w.threads ≡ 0
  finished none_coming none_wanted = elim (ℕ_discrete (total left w.threads) 0) [
    | yes e ↦ e
    | no ne ↦
        let (i, t, at, pos) = found left w.threads (omega arith) in
        let s = weighs supply w.threads i t at in
        let d = weighs demand w.threads i t at in
        absurd (elim (role_cases t.role) [
          | inl er ↦ let coming = supply_at t Role.writer t.place t.left er refl refl in omega arith
          | inr er ↦ let wanted = demand_at t Role.reader t.left er refl in omega arith
        ])
  ]

  unfinished_goes : ((total left w.threads ≡ 0) × (pending w ≡ 0)) ⊎ CanGo w
  unfinished_goes = elim (ℕ_discrete (total held w.threads) 0) [
    | no ne ↦ inr (begun_goes (omega arith))
    | yes none_held ↦
        let supplied = c.supplied in
        let permits = b.permits in
        let le = total_le passing held w.threads passing_le in
        elim (ℕ_discrete w.shared.full 0) [
          | no ne ↦ inr (reader_goes none_held (omega arith) (omega arith))
          | yes none_full ↦ elim (ℕ_discrete (total supply w.threads) 0) [
            | yes none_coming ↦ inl (finished none_coming (omega arith), omega arith)
            | no ne ↦ inr (writer_goes none_held (omega arith) (omega arith))
          ]
        ]
  ]

-- In every world that is reached, some thread goes on, or all messages are written and read, and
-- then the queue is empty.
pub progress :
    {w : World} → Reach start w → ((total left w.threads ≡ 0) × (pending w ≡ 0)) ⊎ CanGo w
progress r = unfinished_goes _ (Reach-IsBounded r) (Reach-IsBalanced r)
