-- ===== src/App/Dining.antt =====
-- That the philosophers that take the lower chopstick first come to no deadlock.

use yat_sen_os.Prelude.{
  ℕ, zero, suc, ◌≡◌, refl, sym, ap, ◌∙◌, subst, Bool, true, false, ◌&&◌, not, some, List, [], ◌∷◌,
  map, get_elem?, set, arith, some_inj,
}
use yat_sen_os.App.Dinner.{
  Order, Strategy, swap, reorder, Phase, Seat, is_stuck, Philosopher, seat, next_round, go_on,
  sit_down, start, Step, move, Reach,
}

-- A check of all phases.
all_phases : (Phase → Bool) → Bool
all_phases p =
    p Phase.thinking && p Phase.one_taken && p Phase.eating && p Phase.one_left && p Phase.finished

all_phases_sound : (p : Phase → Bool) (q : Phase) → all_phases p ≡ true → p q ≡ true
unfolding all_phases
all_phases_sound p Phase.thinking e = ground arith
all_phases_sound p Phase.one_taken e = ground arith
all_phases_sound p Phase.eating e = ground arith
all_phases_sound p Phase.one_left e = ground arith
all_phases_sound p Phase.finished e = ground arith

-- The table of `philosopher3` in every round.
abbrev ascending : Phase → Phase → Phase → Phase → Phase → List Seat
ascending a b c d e = ((0, 1), a) ∷ ((1, 2), b) ∷ ((2, 3), c) ∷ ((3, 4), d) ∷ ((0, 4), e) ∷ []

every_table :
    all_phases (λ a. all_phases (λ b.
      all_phases (λ c. all_phases (λ d. all_phases (λ e. not (is_stuck (ascending a b c d e)))))))
    ≡ true
unfolding all_phases is_stuck
every_table = refl

never_stuck : (a b c d e : Phase) → is_stuck (ascending a b c d e) ≡ false
never_stuck a b c d e =
    let t1 = all_phases_sound _ a every_table in
    let t2 = all_phases_sound _ b t1 in
    let t3 = all_phases_sound _ c t2 in
    let t4 = all_phases_sound _ d t3 in let t5 = all_phases_sound _ e t4 in ground (arith, t5)

abbrev fixed : List Order
fixed = (0, 1) ∷ (1, 2) ∷ (2, 3) ∷ (3, 4) ∷ (0, 4) ∷ []

orders-set :
    (table : List Philosopher) (i : ℕ) (p q : Philosopher)
    → get_elem? table i ≡ some p
    → q.order ≡ p.order
    → map (λ (r : Philosopher). r.order) (set table i q) ≡ map (λ (r : Philosopher). r.order) table
orders-set [] i p q at same = cc
orders-set (r ∷ table) zero p q at same =
    let e : r.order ≡ p.order = ap (λ (s : Philosopher). s.order) (some_inj at) in
    rw (same ∙ sym e) refl
orders-set (r ∷ table) (suc i) p q at same = ap (λ t. r.order ∷ t) (orders-set table i p q at same)

order_at :
    (table : List Philosopher) (i : ℕ) (p : Philosopher)
    → get_elem? table i ≡ some p
    → get_elem? (map (λ (r : Philosopher). r.order) table) i ≡ some p.order
order_at [] i p at = cc
order_at (r ∷ table) zero p at = ap (λ (s : Philosopher). some s.order) (some_inj at)
order_at (r ∷ table) (suc i) p at = order_at table i p at

-- An ascending order stays as it is.
keeps :
    (i : ℕ) (o : Order)
    → get_elem? fixed i ≡ some o
    → (j : ℕ) → reorder Strategy.philosopher3 j o ≡ o
unfolding reorder
keeps zero (l, r) e j = ground (arith, some_inj e)
keeps (suc zero) (l, r) e j = ground arith
keeps (suc (suc zero)) (l, r) e j = ground arith
keeps (suc (suc (suc zero))) (l, r) e j = ground arith
keeps (suc (suc (suc (suc zero)))) (l, r) e j = ground arith
keeps (suc (suc (suc (suc (suc i))))) o e j = cc

next_round-order :
    (f : Strategy) (i n : ℕ) (p : Philosopher)
    → reorder f i p.order ≡ p.order
    → (next_round f i n p).order ≡ p.order
unfolding next_round
next_round-order f i zero p same = refl
next_round-order f i (suc n) p same = same

go_on-order :
    (f : Strategy) (i : ℕ) (p : Philosopher)
    → reorder f i p.order ≡ p.order
    → (go_on f i p).order ≡ p.order
unfolding go_on
go_on-order f i p same = ground (arith, next_round-order f i p.rounds_left p same)

abbrev Ascends : List Philosopher → Type 0
Ascends table = map (λ (r : Philosopher). r.order) table ≡ fixed

Step-Ascends : {t u : List Philosopher} → Step Strategy.philosopher3 t u → Ascends t → Ascends u
Step-Ascends (move table i p at can) up =
    let there = subst (λ os. get_elem? os i ≡ some p.order) up (order_at table i p at) in
    orders-set table i p (go_on Strategy.philosopher3 i p) at
      (go_on-order Strategy.philosopher3 i p (keeps i p.order there i))
    ∙ up

Reach-Ascends : {t u : List Philosopher} → Reach Strategy.philosopher3 t u → Ascends t → Ascends u
Reach-Ascends Reach.here up = up
Reach-Ascends (Reach.next r st) up = Step-Ascends st (Reach-Ascends r up)

Ascends-goes_on : (t : List Philosopher) → Ascends t → is_stuck (map seat t) ≡ false
Ascends-goes_on (a ∷ b ∷ c ∷ d ∷ e ∷ []) up =
    let oa : a.order ≡ (0, 1) = cc in
    let ob : b.order ≡ (1, 2) = cc in
    let oc : c.order ≡ (2, 3) = cc in
    let od : d.order ≡ (3, 4) = cc in
    let oe : e.order ≡ (0, 4) = cc in
    rw (oa, ob, oc, od, oe) (never_stuck a.phase b.phase c.phase d.phase e.phase)
Ascends-goes_on [] up = cc
Ascends-goes_on (a ∷ []) up = cc
Ascends-goes_on (a ∷ b ∷ []) up = cc
Ascends-goes_on (a ∷ b ∷ c ∷ []) up = cc
Ascends-goes_on (a ∷ b ∷ c ∷ d ∷ []) up = cc
Ascends-goes_on (a ∷ b ∷ c ∷ d ∷ e ∷ f ∷ t) up = cc

-- Five philosophers that follow `philosopher3` come to no deadlock: in whatever order their calls
-- return, as long as one of them has not finished, the next call of one of them returns at once.
pub philosopher3-goes_on :
    {t : List Philosopher}
    → Reach Strategy.philosopher3 (start Strategy.philosopher3) t
    → is_stuck (map seat t) ≡ false
unfolding start sit_down next_round reorder swap
philosopher3-goes_on {t} r = Ascends-goes_on t (Reach-Ascends r refl)
