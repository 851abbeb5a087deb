-- ===== src/Tests/Users.antt =====
-- The user library and the programs.
use yat_sen_os.Prelude.{
  ℕ, suc, ◌+◌, ◌-◌, ◌%◌, ◌≤◌, ◌≡◌, refl, true, false, Option, some, none, List, [], ◌∷◌, map,
  Outcome, ok, endless, ℕ_discrete, arith,
}
use yat_sen_os.User.Sleep.{sleep, readings, sleep-returns, sleep-endless}
use yat_sen_os.User.Lines.{read_line, typed, type_bytes, type_byte, stream, read_line-stream}
use yat_sen_os.User.Spin
use yat_sen_os.User.Spin.{Place, Threads, start, mutual_exclusion}
use yat_sen_os.Io.Input.{pop_last}
use yat_sen_os.Text.{from_str, decimal, from_str-decimal}
use yat_sen_os.App.Factorial.{factorial, product_to, modulus, factorial-product_to}
use yat_sen_os.App.Dinner
use yat_sen_os.App.Dinner.{Strategy, Phase, seat, is_stuck}
use yat_sen_os.App.Dining.{philosopher3-goes_on}
use yat_sen_os.App.Deadlock.{philosopher2-stuck, one_each}

-- A clock that starts at 23:59:59 and goes a second on with each reading.
abbrev late : ℕ
late = 86_399_000

abbrev tick : ℕ → Outcome (ℕ × ℕ)
tick w = ok (w, w + 1000)

sleep-returns_example :
    (j : ℕ) × (j ≤ 2)
    × (sleep tick 9 1500 5000
        ≡ ok (readings tick (λ w. w) (λ w. w + 1000) (λ w. refl) (suc j) 5000))
    × (1500 ≤ readings tick (λ w. w) (λ w. w + 1000) (λ w. refl) j 5000 - 5000)
sleep-returns_example =
    sleep-returns tick (λ w. w) (λ w. w + 1000) (λ w. refl) 2 9 1500 5000 (omega arith)
      (omega arith)

-- A clock that stands at its last second of the day, or before.
abbrev day_time : ℕ → ℕ
day_time w = w % 86_400_000

abbrev day_tick : ℕ → Outcome (ℕ × ℕ)
day_tick w = ok (day_time w, w + 1000)

sleep-endless_example : sleep day_tick 1_000_000 2000 late ≡ endless
sleep-endless_example =
    sleep-endless day_tick day_time (λ w. w + 1000) (λ w. refl) 86_400_000 (λ w. omega arith)
      1_000_000 2000 late (omega arith)

-- "ab", a backspace, a failed call, and "c" with a carriage return.
abbrev answers : List (Option (List ℕ))
answers = some (b'a' ∷ b'b' ∷ []) ∷ some (0x7F ∷ []) ∷ none ∷ some (b'c' ∷ 0x0D ∷ []) ∷ []

read_line-stream_example : read_line answers ≡ typed (type_bytes (stream answers) ([], []))
read_line-stream_example = read_line-stream answers

line_ac :
    read_line answers ≡ ok (b'a' ∷ b'c' ∷ [], b'a' ∷ b'b' ∷ 0x08 ∷ 0x20 ∷ 0x08 ∷ b'c' ∷ 0x0A ∷ [])
unfolding read_line type_bytes type_byte pop_last
line_ac = refl

abbrev one_in : Threads
one_in = record {
  lock = record { bolt = true };
  place = Spin.move (Spin.move (λ i. Place.outside) 4 Place.spinning) 4 Place.inside;
}

takes : Spin.Reach start one_in
unfolding Spin.new Spin.compare_exchange ℕ_discrete
takes = Spin.Reach.next (Spin.Reach.next Spin.Reach.here (Spin.Step.begin start 4 refl)) (
    Spin.Step.attempt
      (record { lock = Spin.new; place = Spin.move (λ i. Place.outside) 4 Place.spinning }) 4 refl)

mutual_exclusion_example : ◌≡◌ {A = ℕ} 4 4
unfolding ℕ_discrete
mutual_exclusion_example = mutual_exclusion 4 4 takes refl refl

from_str-decimal_run : from_str (decimal 1024) ≡ some 1024
from_str-decimal_run = from_str-decimal 1024 (omega arith)

factorial-product_to_example : factorial 13 ≡ product_to 13 % modulus
factorial-product_to_example = factorial-product_to 13 (omega arith)

philosopher3-goes_on_example : is_stuck (map seat (Dinner.start Strategy.philosopher3)) ≡ false
philosopher3-goes_on_example = philosopher3-goes_on Dinner.Reach.here

philosopher2-stuck_example :
    (t : List Dinner.Philosopher) × Dinner.Reach Strategy.philosopher2
      (Dinner.start Strategy.philosopher2)
      t
    × (map seat t ≡ one_each Strategy.philosopher2 (λ i. 4))
    × (is_stuck (map seat t) ≡ true)
philosopher2-stuck_example = philosopher2-stuck 2 (omega arith) (omega arith)
