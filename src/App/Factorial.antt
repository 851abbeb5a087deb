-- ===== src/App/Factorial.antt =====
-- src/0x01/pkg/app/fab/src/main.rs: the factorial of the number that is typed, modulo a prime.
use yat_sen_os.Prelude.{
  ℕ, zero, suc, ◌+◌, ◌*◌, ◌%◌, ◌^◌, ◌≤◌, ◌<◌, ◌≡◌, refl, ◌/◌, sym, ◌∙◌, ap, Option, some, none,
  List, ltb, if◌then◌else◌, Outcome, ok, unwrap, ◌>>=◌, arith,
}
use native.Mathlib.Nat.{add-mul-mod_self_right, mul-add, mul_assoc}
use yat_sen_os.Text.{from_str}

abbrev pub modulus : ℕ
modulus = 1_000_000_007

unfoldable pub factorial : ℕ → ℕ
factorial zero = 1
factorial (suc n) = suc n * factorial n % 2 ^ 64 % modulus

-- The exit code, and the result that is printed.
unfoldable pub main : List ℕ → Outcome (ℕ × Option ℕ)
unfolding factorial
main input = do
  n ← unwrap (from_str input)
  ok (if ltb 1_000_000 n then (1, none) else (0, some (factorial n)))

-- The product of the numbers up to `n`.
unfoldable pub product_to : ℕ → ℕ
product_to zero = 1
product_to (suc n) = suc n * product_to n

factorial-lt : (n : ℕ) → factorial n < modulus
unfolding factorial
factorial-lt zero = omega arith
factorial-lt (suc n) = omega arith

no_overflow : (n r : ℕ) → n ≤ 1_000_000 → r < modulus → n * r < 2 ^ 64
no_overflow n r small low = grind arith

-- A product modulo the prime needs one factor only modulo the prime.
reduced : (a b : ℕ) → a * (b % modulus) % modulus ≡ a * b % modulus
reduced a b =
    let parts : b ≡ b % modulus + b / modulus * modulus = omega arith in
    let product : a * b ≡ a * (b % modulus) + a * (b / modulus) * modulus =
      ap (λ (t : ℕ). a * t) parts
      ∙ mul-add a (b % modulus) (b / modulus * modulus)
      ∙ ap (λ (t : ℕ). a * (b % modulus) + t) (sym (mul_assoc a (b / modulus) modulus)) in
    sym (
      ap (λ (t : ℕ). t % modulus) product
      ∙ add-mul-mod_self_right (a * (b % modulus)) (a * (b / modulus)) modulus)

-- Up to a million, the number that `factorial` computes in 64 bits is the factorial modulo the prime.
pub factorial-product_to : (n : ℕ) → n ≤ 1_000_000 → factorial n ≡ product_to n % modulus
unfolding factorial product_to
factorial-product_to zero small = refl
factorial-product_to (suc n) small =
    let fits : suc n * factorial n % 2 ^ 64 ≡ suc n * factorial n =
      omega (arith, no_overflow (suc n) (factorial n) small (factorial-lt n)) in
    rw (fits, factorial-product_to n (omega arith)) (reduced (suc n) (product_to n))
