-- ===== src/App/Deadlock.antt =====
-- That the philosophers of `philosopher2` come to a deadlock.
use yat_sen_os.Prelude.{
  ℕ, zero, suc, ◌*◌, ◌<◌, ◌≡◌, refl, true, Option, some, none, List, [], ◌∷◌, ◌++◌, map, get_elem?,
  set, if◌then◌else◌, arith, some_inj, subst, Bool-cases, inl, inr, Option-cases,
}
use yat_sen_os.App.Dinner.{
  Order, initial, Strategy, swap, reorder, order_in, Phase, Seat, is_stuck, Philosopher, seat,
  can_go, next_round, go_on, sit_down, start, Step, move, Reach,
}

-- The table where every philosopher is in the round that `round` gives, and has one chopstick.
abbrev pub one_each : Strategy → (ℕ → ℕ) → List Seat
one_each f round =
    map (λ (i : ℕ). (order_in f i (round i), Phase.one_taken)) (0 ∷ 1 ∷ 2 ∷ 3 ∷ 4 ∷ [])

-- The next call of philosopher `i` returns; `none` where it has to wait.
abbrev resumed : Strategy → List Philosopher → ℕ → Option Philosopher → Option (List Philosopher)
resumed f table i none = none
resumed f table i (some p) =
    if can_go (map seat table) (seat p) then some (set table i (go_on f i p)) else none

abbrev and_then :
    (List Philosopher → Option (List Philosopher))
    → Option (List Philosopher)
    → Option (List Philosopher)
and_then go none = none
and_then go (some table) = go table

-- The next calls of the philosophers of a list return one after the other.
unfoldable run : Strategy → List ℕ → List Philosopher → Option (List Philosopher)
run f [] table = some table
run f (i ∷ is) table = and_then (run f is) (resumed f table i (get_elem? table i))

resumed-Step :
    (f : Strategy) (table t : List Philosopher) (i : ℕ) (o : Option Philosopher)
    → get_elem? table i ≡ o
    → resumed f table i o ≡ some t
    → Step f table t
resumed-Step f table t i none at e = absurd (ground arith)
resumed-Step f table t i (some p) at e = elim (Bool-cases (can_go (map seat table) (seat p))) [
  | inl can ↦ subst (Step f table) (some_inj (rw can at e)) (move table i p at can)
  | inr waits ↦ absurd (ground (arith, rw waits at e))
]

run-Reach :
    (f : Strategy) (is : List ℕ) (first table t : List Philosopher)
    → Reach f first table
    → run f is table ≡ some t
    → Reach f first t
unfolding run
run-Reach f [] first table t r e = subst (Reach f first) (some_inj e) r
run-Reach f (i ∷ is) first table t r e =
    let go = resumed f table i (get_elem? table i) in
    elim (Option-cases go) [
      | inl waits ↦ absurd (ground (arith, rw waits at e))
      | inr (u, goes) ↦
          run-Reach f is first u t
            (Reach.next r (resumed-Step f table u i (get_elem? table i) refl goes)) (rw goes at e)
    ]

-- Each philosopher by himself does a round.
abbrev each_round : List ℕ
each_round = 0 ∷ 0 ∷ 0 ∷ 0 ∷ 1 ∷ 1 ∷ 1 ∷ 1 ∷ 2 ∷ 2 ∷ 2 ∷ 2 ∷ 3 ∷ 3 ∷ 3 ∷ 3 ∷ 4 ∷ 4 ∷ 4 ∷ 4 ∷ []

abbrev each_first : List ℕ
each_first = 0 ∷ 1 ∷ 2 ∷ 3 ∷ 4 ∷ []

-- The tables at the deadlock.
abbrev philosopher_at : ℕ → Order → Philosopher
philosopher_at n order = record { order = order; phase = Phase.one_taken; rounds_left = n }

abbrev stuck_with : ℕ → List Philosopher
stuck_with n = map (λ (i : ℕ). philosopher_at n (initial i)) each_first

in_round_two :
    run Strategy.philosopher2 (each_round ++ each_first) (start Strategy.philosopher2)
    ≡ some (stuck_with 3)
unfolding run start sit_down next_round go_on reorder swap
in_round_two = refl

in_round_four :
    run Strategy.philosopher2
      (each_round ++ each_round ++ each_round ++ each_first)
      (start Strategy.philosopher2)
    ≡ some (stuck_with 1)
unfolding run start sit_down next_round go_on reorder swap
in_round_four = refl

-- The philosophers of `philosopher2` can come to a deadlock in the second and in the fourth of their
-- rounds: from the start, calls that return lead to a table where each of them has taken the first
-- chopstick of that round, and no one can go on.
pub philosopher2-stuck :
    (k : ℕ)
    → 0 < k
    → k < 3
    → (t : List Philosopher) × Reach Strategy.philosopher2 (start Strategy.philosopher2) t
      × (map seat t ≡ one_each Strategy.philosopher2 (λ i. 2 * k))
      × (is_stuck (map seat t) ≡ true)
unfolding order_in reorder swap is_stuck
philosopher2-stuck zero some' few = absurd (omega arith)
philosopher2-stuck (suc zero) some' few =
    (stuck_with 3, run-Reach _ _ _ _ _ Reach.here in_round_two, refl, refl)
philosopher2-stuck (suc (suc zero)) some' few =
    (stuck_with 1, run-Reach _ _ _ _ _ Reach.here in_round_four, refl, refl)
philosopher2-stuck (suc (suc (suc k))) some' few = absurd (omega arith)
