-- ===== src/App/Messages/Balanced.antt =====
-- What the readers wait for, and what still comes, in the message queue of
-- src/0x01/pkg/app/md/src/main.rs.
use yat_sen_os.Prelude.{
  total, total-set, ◌+◌, ◌-◌, ◌<◌, ◌≡◌, refl, ap, ◌∙◌, subst, some, set, get_elem?, ok, arith,
  ok_inj, some_inj, ltb→lt, ℕ,
}
use yat_sen_os.App.Messages.{
  Shared, Role, Place, Thread, write_message, read_message, perform, go_on, World, act, Reach, here,
  next, start, forked,
}
use yat_sen_os.App.Messages.Counts.{held_at, held, after, go_on-place, go_on-role}
use yat_sen_os.App.Messages.Statements.{with_empty_inv, with_full_inv, with_mutex_inv, store_inv}

-- The writes that are left to begin or end, and the reads.
abbrev pub supply_of : Role → Place → ℕ → ℕ
supply_of Role.writer p left = left
supply_of Role.reader p left = held_at p

abbrev pub demand_of : Role → ℕ → ℕ
demand_of Role.writer left = 0
demand_of Role.reader left = left

abbrev pub supply : Thread → ℕ
supply t = supply_of t.role t.place t.left

abbrev pub demand : Thread → ℕ
demand t = demand_of t.role t.left

-- A thread within a message that has none left, which does not come about.
abbrev pub excess : Thread → ℕ
excess t = held t - t.left

abbrev pub left_after : Place → ℕ → ℕ
left_after Place.unlocked left = left - 1
left_after p left = left

pub go_on-left : (p : Place) (t : Thread) → (go_on p t).left ≡ left_after p t.left
unfolding go_on
go_on-left Place.idle t = refl
go_on-left Place.granted t = refl
go_on-left Place.locked t = refl
go_on-left Place.stored t = refl
go_on-left Place.moved t = refl
go_on-left Place.unlocked t = refl

pub supply_at :
    (t : Thread) (r : Role) (p : Place) (n : ℕ)
    → t.role ≡ r
    → t.place ≡ p
    → t.left ≡ n
    → supply t ≡ supply_of r p n
supply_at t r p n er ep en =
    ap (λ q. supply_of q t.place t.left) er
    ∙ ap (λ q. supply_of r q t.left) ep
    ∙ ap (supply_of r p) en

pub demand_at : (t : Thread) (r : Role) (n : ℕ) → t.role ≡ r → t.left ≡ n → demand t ≡ demand_of r n
demand_at t r n er en = ap (λ q. demand_of q t.left) er ∙ ap (demand_of r) en

-- The readers wait for as many messages as are there or still come.
pub record IsBalanced (w : World) : Type 0 where
  pub supplied : w.shared.full + total supply w.threads ≡ total demand w.threads
  pub no_excess : total excess w.threads ≡ 0

start-IsBalanced : IsBalanced start
unfolding start forked
start-IsBalanced = record { supplied = refl; no_excess = refl }

-- A thread does not go on within a message that it does not have.
excess_after : (p : Place) (n : ℕ) → 0 < n → held_at (after p) - left_after p n ≡ 0
excess_after Place.idle n h = omega arith
excess_after Place.granted n h = omega arith
excess_after Place.locked n h = omega arith
excess_after Place.stored n h = omega arith
excess_after Place.moved n h = omega arith
excess_after Place.unlocked n h = omega arith

module _ (w : World) (i : ℕ) (t : Thread) (at : get_elem? w.threads i ≡ some t) (more : 0 < t.left)
    (b : IsBalanced w) where
  balances :
      (r : Role) (p : Place) (s : Shared)
      → t.role ≡ r
      → t.place ≡ p
      → s.full + supply_of r (after p) (left_after p t.left) + demand_of r t.left
        ≡ w.shared.full + supply_of r p t.left + demand_of r (left_after p t.left)
      → IsBalanced (record { threads = set w.threads i (go_on p t); shared = s })
  balances r p s er ep e =
      let t' = go_on p t in
      let place = go_on-place p t in
      let left = go_on-left p t in
      let role = go_on-role p t ∙ er in
      let s0 = supply_at t r p t.left er ep refl in
      let s1 = supply_at t' r (after p) (left_after p t.left) role place left in
      let d0 = demand_at t r t.left er refl in
      let d1 = demand_at t' r (left_after p t.left) role left in
      let a = total-set supply w.threads i t t' at in
      let d = total-set demand w.threads i t t' at in
      let x = total-set excess w.threads i t t' at in
      let x1 : excess t' ≡ 0 =
        ap (λ q. q - t'.left) (ap held_at place)
        ∙ ap (λ q. held_at (after p) - q) left
        ∙ excess_after p t.left more in
      let old = b.supplied in
      let clean = b.no_excess in record { supplied = omega arith; no_excess = omega arith }

  abbrev BalancedAt : Place → Shared → Type 0
  BalancedAt p s = IsBalanced (record { threads = set w.threads i (go_on p t); shared = s })

  balances_writer :
      (p : Place) (s' : Shared)
      → t.role ≡ Role.writer
      → t.place ≡ p
      → write_message p t.message w.shared ≡ ok (some s')
      → BalancedAt p s'
  unfolding write_message
  balances_writer Place.idle s' er ep e =
      let (n, taken, to) = with_empty_inv w.shared s' w.shared.empty e in
      subst (BalancedAt Place.idle) to (balances Role.writer Place.idle _ er ep refl)
  balances_writer Place.granted s' er ep e =
      let (n, taken, to) = with_mutex_inv w.shared s' w.shared.write_mutex e in
      subst (BalancedAt Place.granted) to (balances Role.writer Place.granted _ er ep refl)
  balances_writer Place.locked s' er ep e =
      let (q, to) = store_inv w.shared s' w.shared.messages.tail t.message e in
      subst (BalancedAt Place.locked) to (balances Role.writer Place.locked _ er ep refl)
  balances_writer Place.stored s' er ep e =
      subst (BalancedAt Place.stored) (some_inj (ok_inj e))
        (balances Role.writer Place.stored _ er ep refl)
  balances_writer Place.moved s' er ep e =
      subst (BalancedAt Place.moved) (some_inj (ok_inj e))
        (balances Role.writer Place.moved _ er ep refl)
  balances_writer Place.unlocked s' er ep e =
      subst (BalancedAt Place.unlocked) (some_inj (ok_inj e))
        (balances Role.writer Place.unlocked _ er ep (omega arith))

  balances_reader :
      (p : Place) (s' : Shared)
      → t.role ≡ Role.reader
      → t.place ≡ p
      → read_message p w.shared ≡ ok (some s')
      → BalancedAt p s'
  unfolding read_message
  balances_reader Place.idle s' er ep e =
      let (n, taken, to) = with_full_inv w.shared s' w.shared.full e in
      subst (BalancedAt Place.idle) to (balances Role.reader Place.idle _ er ep (omega arith))
  balances_reader Place.granted s' er ep e =
      let (n, taken, to) = with_mutex_inv w.shared s' w.shared.write_mutex e in
      subst (BalancedAt Place.granted) to (balances Role.reader Place.granted _ er ep refl)
  balances_reader Place.locked s' er ep e =
      let (q, to) = store_inv w.shared s' w.shared.messages.head 0 e in
      subst (BalancedAt Place.locked) to (balances Role.reader Place.locked _ er ep refl)
  balances_reader Place.stored s' er ep e =
      subst (BalancedAt Place.stored) (some_inj (ok_inj e))
        (balances Role.reader Place.stored _ er ep refl)
  balances_reader Place.moved s' er ep e =
      subst (BalancedAt Place.moved) (some_inj (ok_inj e))
        (balances Role.reader Place.moved _ er ep refl)
  balances_reader Place.unlocked s' er ep e =
      subst (BalancedAt Place.unlocked) (some_inj (ok_inj e))
        (balances Role.reader Place.unlocked _ er ep (omega arith))

  balances_any :
      (r : Role) (s' : Shared)
      → t.role ≡ r
      → perform r t.place t.message w.shared ≡ ok (some s')
      → BalancedAt t.place s'
  unfolding perform
  balances_any Role.writer s' er e = balances_writer t.place s' er refl e
  balances_any Role.reader s' er e = balances_reader t.place s' er refl e

pub Reach-IsBalanced : {w : World} → Reach start w → IsBalanced w
Reach-IsBalanced here = start-IsBalanced
Reach-IsBalanced (next r (act w i t s at more e)) =
    balances_any w i t at (ltb→lt 0 t.left more) (Reach-IsBalanced r) t.role s refl e
