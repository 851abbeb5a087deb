-- ===== src/App/Dinner.antt =====
-- The dining philosophers of src/0x01/pkg/app/dinner/src/main.rs. A chopstick is a semaphore of one
-- permit, so it is free where no philosopher has it. Printing and sleeping are left out.
use Prim.Native.Nat.{bit_xor}
use yat_sen_os.Prelude.{
  ℕ, zero, suc, ◌+◌, ◌%◌, Bool, true, false, some, List, [], ◌∷◌, ltb, ◌==◌, ◌&&◌, ◌||◌, not,
  if◌then◌else◌, set, get_elem?, map, ◌≡◌,
}

abbrev pub phi_size : ℕ
phi_size = 5

-- The two chopsticks of a philosopher, in the order in which he takes them.
abbrev pub Order : Type 0
Order = ℕ × ℕ

-- `left` and `right` at the start.
abbrev pub initial : ℕ → Order
initial i = (i, (i + 1) % phi_size)

-- The three assignments with `^`.
unfoldable pub swap : Order → Order
swap (left, right) =
    let left' = bit_xor left right in
    let right' = bit_xor left' right in (bit_xor left' right', right')

-- What a round of `philosopher1`, `philosopher2` and `philosopher3` does to the order first; the
-- variables keep it for the next round.
pub data Strategy : Type 0 where
  philosopher1 philosopher2 philosopher3 : Strategy

unfoldable pub reorder : Strategy → ℕ → Order → Order
unfolding swap
reorder Strategy.philosopher1 i order = order
reorder Strategy.philosopher2 i order = if i % 2 == 0 then swap order else order
reorder Strategy.philosopher3 i (left, right) =
    if ltb right left then swap (left, right) else (left, right)

-- The order of philosopher `i` in a round, the first being 1.
unfoldable pub order_in : Strategy → ℕ → ℕ → Order
unfolding reorder
order_in f i zero = initial i
order_in f i (suc round) = reorder f i (order_in f i round)

-- The bounds of the loops.
abbrev pub rounds : Strategy → ℕ
rounds Strategy.philosopher1 = 20
rounds Strategy.philosopher2 = 5
rounds Strategy.philosopher3 = 10

-- Where a philosopher is in a round: before the first `wait`, before the second, after it, and after
-- the first `signal`; or after the last round.
pub data Phase : Type 0 where
  thinking one_taken eating one_left finished : Phase

-- What the table shows of a philosopher.
abbrev pub Seat : Type 0
Seat = Order × Phase

abbrev pub holds : Seat → ℕ → Bool
holds ((first, second), Phase.thinking) c = false
holds ((first, second), Phase.one_taken) c = c == first
holds ((first, second), Phase.eating) c = (c == first) || (c == second)
holds ((first, second), Phase.one_left) c = c == second
holds ((first, second), Phase.finished) c = false

abbrev pub taken : List Seat → ℕ → Bool
taken [] c = false
taken (s ∷ table) c = holds s c || taken table c

-- The philosopher's next call returns at once: a `wait` on a free chopstick, or a `signal`.
abbrev pub can_go : List Seat → Seat → Bool
can_go table ((first, second), Phase.thinking) = not (taken table first)
can_go table ((first, second), Phase.one_taken) = not (taken table second)
can_go table (order, Phase.eating) = true
can_go table (order, Phase.one_left) = true
can_go table (order, Phase.finished) = false

abbrev pub any_can_go : List Seat → List Seat → Bool
any_can_go table [] = false
any_can_go table (s ∷ seats) = can_go table s || any_can_go table seats

abbrev pub is_finished : Seat → Bool
is_finished (order, Phase.finished) = true
is_finished (order, _) = false

abbrev pub all_finished : List Seat → Bool
all_finished [] = true
all_finished (s ∷ seats) = is_finished s && all_finished seats

-- Some philosopher has not finished, and none can go on.
unfoldable pub is_stuck : List Seat → Bool
is_stuck table = not (all_finished table) && not (any_can_go table table)

-- A philosopher's variables: the order, and the rounds after this one.
pub record Philosopher : Type 0 where
  pub order : Order
  pub phase : Phase
  pub rounds_left : ℕ

abbrev pub seat : Philosopher → Seat
seat p = (p.order, p.phase)

unfoldable pub next_round : Strategy → ℕ → ℕ → Philosopher → Philosopher
unfolding reorder
next_round f i zero p = record p { phase = Phase.finished }
next_round f i (suc n) p = record {
  order = reorder f i p.order;
  phase = Phase.thinking;
  rounds_left = n;
}

-- After the call that was next has returned.
unfoldable pub go_on : Strategy → ℕ → Philosopher → Philosopher
unfolding next_round
go_on f i p = elim p.phase [
  | thinking ↦ record p { phase = Phase.one_taken }
  | one_taken ↦ record p { phase = Phase.eating }
  | eating ↦ record p { phase = Phase.one_left }
  | one_left ↦ next_round f i p.rounds_left p
  | finished ↦ p
]

-- A process starts its first round.
unfoldable pub sit_down : Strategy → ℕ → Philosopher
unfolding next_round
sit_down f i =
    next_round f i (rounds f)
      (record { order = initial i; phase = Phase.thinking; rounds_left = 0 })

unfoldable pub start : Strategy → List Philosopher
unfolding sit_down
start f = sit_down f 0 ∷ sit_down f 1 ∷ sit_down f 2 ∷ sit_down f 3 ∷ sit_down f 4 ∷ []

-- One call of philosopher `i` returns.
pub data Step (f : Strategy) : List Philosopher → List Philosopher → Type 0 where
  move :
      (table : List Philosopher) (i : ℕ) (p : Philosopher)
      → get_elem? table i ≡ some p
      → can_go (map seat table) (seat p) ≡ true
      → Step f table (set table i (go_on f i p))

pub data Reach (f : Strategy) (table : List Philosopher) : List Philosopher → Type 0 where
  here : Reach f table table
  next : {t u : List Philosopher} → Reach f table t → Step f t u → Reach f table u
