-- ===== src/App/Messages/Statements.antt =====
-- When a statement returns, and what it has done, in the threads of the message queue of src/0x01/pkg/app/md/src/main.rs.
use yat_sen_os.Prelude.{
  ◌<◌, ◌≡◌, refl, Option, some, none, List, ltb, set, ok, arith, ok_inj, some_inj, Bool-cases, inl,
  inr, lt→ltb, ℕ, zero, suc,
}
use yat_sen_os.App.Messages.{
  queue_size, Shared, store, Role, Place, take, with_empty, with_full, with_mutex, with_messages,
  write_message, read_message, perform,
}

-- A `wait` that returns has taken a permit.
pub with_empty_inv :
    (s s' : Shared) (m : ℕ)
    → with_empty s (take m) ≡ ok (some s')
    → (n : ℕ) × (m ≡ suc n) × (record s { empty = n } ≡ s')
with_empty_inv s s' zero e = absurd (ground arith)
with_empty_inv s s' (suc n) e = (n, refl, some_inj (ok_inj e))

pub with_full_inv :
    (s s' : Shared) (m : ℕ)
    → with_full s (take m) ≡ ok (some s')
    → (n : ℕ) × (m ≡ suc n) × (record s { full = n } ≡ s')
with_full_inv s s' zero e = absurd (ground arith)
with_full_inv s s' (suc n) e = (n, refl, some_inj (ok_inj e))

pub with_mutex_inv :
    (s s' : Shared) (m : ℕ)
    → with_mutex s (take m) ≡ ok (some s')
    → (n : ℕ) × (m ≡ suc n) × (record s { write_mutex = n } ≡ s')
with_mutex_inv s s' zero e = absurd (ground arith)
with_mutex_inv s s' (suc n) e = (n, refl, some_inj (ok_inj e))

-- A store that returns leaves the indices as they are.
pub store_inv :
    (s s' : Shared) (at value : ℕ)
    → with_messages s (store at value s.messages) ≡ ok (some s')
    → (q : List ℕ) × (record s { messages = record (s.messages) { queue = q } } ≡ s')
unfolding store
store_inv s s' at value e = elim (Bool-cases (ltb at queue_size)) [
  | inl low ↦ (set s.messages.queue at value, some_inj (ok_inj (rw low at e)))
  | inr high ↦ absurd (ground (arith, rw high at e))
]

pub store_ok :
    (s : Shared) (at value : ℕ)
    → at < 11
    → (out : Option Shared) × (with_messages s (store at value s.messages) ≡ ok out)
unfolding store
store_ok s at value low = rw (lt→ltb at 11 low) (_, refl)

with_empty_ok : (s : Shared) (m : Option ℕ) → (out : Option Shared) × (with_empty s m ≡ ok out)
with_empty_ok s none = (_, refl)
with_empty_ok s (some n) = (_, refl)

with_full_ok : (s : Shared) (m : Option ℕ) → (out : Option Shared) × (with_full s m ≡ ok out)
with_full_ok s none = (_, refl)
with_full_ok s (some n) = (_, refl)

with_mutex_ok : (s : Shared) (m : Option ℕ) → (out : Option Shared) × (with_mutex s m ≡ ok out)
with_mutex_ok s none = (_, refl)
with_mutex_ok s (some n) = (_, refl)

pub perform_ok :
    (r : Role) (p : Place) (message : ℕ) (s : Shared)
    → s.messages.head < 11
    → s.messages.tail < 11
    → (out : Option Shared) × (perform r p message s ≡ ok out)
unfolding perform write_message read_message
perform_ok Role.writer Place.idle message s h t = with_empty_ok s (take s.empty)
perform_ok Role.writer Place.granted message s h t = with_mutex_ok s (take s.write_mutex)
perform_ok Role.writer Place.locked message s h t = store_ok s s.messages.tail message t
perform_ok Role.writer Place.stored message s h t = (_, refl)
perform_ok Role.writer Place.moved message s h t = (_, refl)
perform_ok Role.writer Place.unlocked message s h t = (_, refl)
perform_ok Role.reader Place.idle message s h t = with_full_ok s (take s.full)
perform_ok Role.reader Place.granted message s h t = with_mutex_ok s (take s.write_mutex)
perform_ok Role.reader Place.locked message s h t = store_ok s s.messages.head 0 h
perform_ok Role.reader Place.stored message s h t = (_, refl)
perform_ok Role.reader Place.moved message s h t = (_, refl)
perform_ok Role.reader Place.unlocked message s h t = (_, refl)
