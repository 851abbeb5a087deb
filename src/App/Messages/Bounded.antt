-- ===== src/App/Messages/Bounded.antt =====
-- What the permits count of the message queue of src/0x01/pkg/app/md/src/main.rs.
use yat_sen_os.Prelude.{
  total, total-set, ◌+◌, ◌%◌, ◌<◌, ◌≡◌, refl, ap, ◌∙◌, subst, some, set, get_elem?, ok, arith,
  ok_inj, some_inj, ℕ,
}
use yat_sen_os.App.Messages.{
  Shared, Role, Place, Thread, write_message, read_message, perform, go_on, World, Step, act, Reach,
  here, next, start, forked,
}
use yat_sen_os.App.Messages.Counts.{
  held_at, held, inside_at, inside, underway, passing, pending, passing_at, after, go_on-place,
  go_on-role,
}
use yat_sen_os.App.Messages.Statements.{with_empty_inv, with_full_inv, with_mutex_inv, store_inv}

-- The permits are those that a thread has and those that are left, and the indices stand as far
-- apart as there are messages.
pub record IsBounded (w : World) : Type 0 where
  pub permits : w.shared.empty + w.shared.full + total held w.threads ≡ 10
  pub alone : w.shared.write_mutex + total inside w.threads ≡ 1
  pub head_inside : w.shared.messages.head < 11
  pub tail_at : w.shared.messages.tail ≡ (w.shared.messages.head + pending w) % 11

start-IsBounded : IsBounded start
unfolding start forked
start-IsBounded = record { permits = refl; alone = refl; head_inside = omega arith; tail_at = refl }

-- A thread of the world goes on.
module _ (w : World) (i : ℕ) (t : Thread) (at : get_elem? w.threads i ≡ some t)
    (b : IsBounded w) where
  abbrev pub then_at : Place → Shared → World
  then_at p s = record { threads = set w.threads i (go_on p t); shared = s }

  -- What the three sums become.
  counts :
      (r : Role) (p : Place) (s : Shared)
      → t.role ≡ r
      → t.place ≡ p
      → (total held (then_at p s).threads + held_at p ≡ total held w.threads + held_at (after p))
        × (total inside (then_at p s).threads + inside_at p
            ≡ total inside w.threads + inside_at (after p))
        × (total passing (then_at p s).threads + underway r p
            ≡ total passing w.threads + underway r (after p))
  counts r p s er ep =
      let t' = go_on p t in
      let place = go_on-place p t in
      let h0 : held t ≡ held_at p = ap held_at ep in
      let h1 : held t' ≡ held_at (after p) = ap held_at place in
      let n0 : inside t ≡ inside_at p = ap inside_at ep in
      let n1 : inside t' ≡ inside_at (after p) = ap inside_at place in
      let a0 = passing_at t r p er ep in
      let a1 = passing_at t' r (after p) (go_on-role p t ∙ er) place in
      let h = total-set held w.threads i t t' at in
      let n = total-set inside w.threads i t t' at in
      let a = total-set passing w.threads i t t' at in (omega arith, omega arith, omega arith)

  -- A statement that leaves the indices, and what it does to the permits.
  same_ends :
      (r : Role) (p : Place) (s : Shared)
      → t.role ≡ r
      → t.place ≡ p
      → s.messages.head ≡ w.shared.messages.head
      → s.messages.tail ≡ w.shared.messages.tail
      → s.empty + s.full + held_at (after p) ≡ w.shared.empty + w.shared.full + held_at p
      → s.write_mutex + inside_at (after p) ≡ w.shared.write_mutex + inside_at p
      → s.full + underway r (after p) ≡ w.shared.full + underway r p
      → IsBounded (then_at p s)
  same_ends r p s er ep eh et permits alone full =
      let (h, n, a) = counts r p s er ep in
      let same : pending (then_at p s) ≡ pending w = omega arith in
      let c = b.permits in
      let d = b.alone in
      record {
        permits = omega arith;
        alone = omega arith;
        head_inside = let low = b.head_inside in omega arith;
        tail_at = et ∙ b.tail_at ∙ rw (eh, same) refl;
      }

  keeps_writer :
      (p : Place) (s' : Shared)
      → t.role ≡ Role.writer
      → t.place ≡ p
      → write_message p t.message w.shared ≡ ok (some s')
      → IsBounded (then_at p s')
  unfolding write_message
  keeps_writer Place.idle s' er ep e =
      let (n, taken, to) = with_empty_inv w.shared s' w.shared.empty e in
      subst (λ s. IsBounded (then_at Place.idle s)) to
        (same_ends Role.writer Place.idle _ er ep refl refl (omega arith) (omega arith)
          (omega arith))
  keeps_writer Place.granted s' er ep e =
      let (n, taken, to) = with_mutex_inv w.shared s' w.shared.write_mutex e in
      subst (λ s. IsBounded (then_at Place.granted s)) to
        (same_ends Role.writer Place.granted _ er ep refl refl (omega arith) (omega arith)
          (omega arith))
  keeps_writer Place.locked s' er ep e =
      let (q, to) = store_inv w.shared s' w.shared.messages.tail t.message e in
      subst (λ s. IsBounded (then_at Place.locked s)) to
        (same_ends Role.writer Place.locked _ er ep refl refl (omega arith) (omega arith)
          (omega arith))
  keeps_writer Place.stored s' er ep e =
      let (h, n, a) = counts Role.writer Place.stored s' er ep in
      let c = b.permits in
      let d = b.alone in
      let old = b.tail_at in
      subst (λ s. IsBounded (then_at Place.stored s)) (some_inj (ok_inj e))
        (record {
          permits = omega arith;
          alone = omega arith;
          head_inside = b.head_inside;
          tail_at = omega arith;
        })
  keeps_writer Place.moved s' er ep e =
      subst (λ s. IsBounded (then_at Place.moved s)) (some_inj (ok_inj e))
        (same_ends Role.writer Place.moved _ er ep refl refl (omega arith) (omega arith)
          (omega arith))
  keeps_writer Place.unlocked s' er ep e =
      subst (λ s. IsBounded (then_at Place.unlocked s)) (some_inj (ok_inj e))
        (same_ends Role.writer Place.unlocked _ er ep refl refl (omega arith) (omega arith)
          (omega arith))

  keeps_reader :
      (p : Place) (s' : Shared)
      → t.role ≡ Role.reader
      → t.place ≡ p
      → read_message p w.shared ≡ ok (some s')
      → IsBounded (then_at p s')
  unfolding read_message
  keeps_reader Place.idle s' er ep e =
      let (n, taken, to) = with_full_inv w.shared s' w.shared.full e in
      subst (λ s. IsBounded (then_at Place.idle s)) to
        (same_ends Role.reader Place.idle _ er ep refl refl (omega arith) (omega arith)
          (omega arith))
  keeps_reader Place.granted s' er ep e =
      let (n, taken, to) = with_mutex_inv w.shared s' w.shared.write_mutex e in
      subst (λ s. IsBounded (then_at Place.granted s)) to
        (same_ends Role.reader Place.granted _ er ep refl refl (omega arith) (omega arith)
          (omega arith))
  keeps_reader Place.locked s' er ep e =
      let (q, to) = store_inv w.shared s' w.shared.messages.head 0 e in
      subst (λ s. IsBounded (then_at Place.locked s)) to
        (same_ends Role.reader Place.locked _ er ep refl refl (omega arith) (omega arith)
          (omega arith))
  keeps_reader Place.stored s' er ep e =
      let (h, n, a) = counts Role.reader Place.stored s' er ep in
      let c = b.permits in
      let d = b.alone in
      let old = b.tail_at in
      subst (λ s. IsBounded (then_at Place.stored s)) (some_inj (ok_inj e))
        (record {
          permits = omega arith;
          alone = omega arith;
          head_inside = omega arith;
          tail_at = omega arith;
        })
  keeps_reader Place.moved s' er ep e =
      subst (λ s. IsBounded (then_at Place.moved s)) (some_inj (ok_inj e))
        (same_ends Role.reader Place.moved _ er ep refl refl (omega arith) (omega arith)
          (omega arith))
  keeps_reader Place.unlocked s' er ep e =
      subst (λ s. IsBounded (then_at Place.unlocked s)) (some_inj (ok_inj e))
        (same_ends Role.reader Place.unlocked _ er ep refl refl (omega arith) (omega arith)
          (omega arith))

  keeps :
      (r : Role) (s' : Shared)
      → t.role ≡ r
      → perform r t.place t.message w.shared ≡ ok (some s')
      → IsBounded (then_at t.place s')
  unfolding perform
  keeps Role.writer s' er e = keeps_writer t.place s' er refl e
  keeps Role.reader s' er e = keeps_reader t.place s' er refl e

Step-IsBounded : {u v : World} → Step u v → IsBounded u → IsBounded v
Step-IsBounded (act w i t s at more e) b = keeps w i t at b t.role s refl e

pub Reach-IsBounded : {w : World} → Reach start w → IsBounded w
Reach-IsBounded here = start-IsBounded
Reach-IsBounded (next r st) = Step-IsBounded st (Reach-IsBounded r)
