-- ===== src/Text.antt =====
-- Numbers in text: `u64::from_str` and `u64::from_str_radix` of the standard library, which
-- src/0x01/pkg/boot/src/config.rs and src/0x01/pkg/app/fab/src/main.rs call. A text is its bytes.
use yat_sen_os.Prelude.{
  ℕ, zero, suc, ◌+◌, ◌-◌, ◌*◌, ◌/◌, ◌%◌, ◌^◌, ◌<◌, ◌≡◌, refl, ap, ◌∙◌, false, Option, some, none,
  List, [], ◌∷◌, ltb, leb, ◌==◌, ◌&&◌, if◌then◌else◌, arith, Bool-cases, inl, inr,
}

-- `char::to_digit`, for a radix of at most 16.
unfoldable pub digit_of : ℕ → Option ℕ
digit_of c =
    if leb b'0' c && leb c b'9'
    then some (c - b'0')
    else if leb b'a' c && leb c b'f'
    then some (c - b'a' + 10)
    else if leb b'A' c && leb c b'F'
    then some (c - b'A' + 10)
    else none

-- A digit after the value so far, in 64 bits.
unfoldable pub append_digit : ℕ → ℕ → Option ℕ → Option ℕ
append_digit radix value none = none
append_digit radix value (some d) =
    if ltb d radix && ltb (value * radix + d) (2 ^ 64) then some (value * radix + d) else none

-- The value of the digits after a value; `none` is an error.
unfoldable pub parse_digits : ℕ → Option ℕ → List ℕ → Option ℕ
unfolding digit_of append_digit
parse_digits radix none cs = none
parse_digits radix (some value) [] = some value
parse_digits radix (some value) (c ∷ cs) =
    parse_digits radix (append_digit radix value (digit_of c)) cs

-- A leading plus is skipped; without a digit there is no number.
unfoldable pub from_str_radix : ℕ → List ℕ → Option ℕ
unfolding parse_digits
from_str_radix radix [] = none
from_str_radix radix (c ∷ []) = parse_digits radix (some 0) (c ∷ [])
from_str_radix radix (c ∷ d ∷ cs) =
    parse_digits radix (some 0) (if c == b'+' then d ∷ cs else c ∷ d ∷ cs)

unfoldable pub from_str : List ℕ → Option ℕ
from_str s = from_str_radix 10 s

-- The decimal notation of a number, before a text.
unfoldable pub decimal_before : ℕ → ℕ → List ℕ → List ℕ
decimal_before zero n rest = rest
decimal_before (suc fuel) n rest =
    let longer = decimal_before fuel (n / 10) ((b'0' + n % 10) ∷ rest) in
    if ltb n 10 then (b'0' + n) ∷ rest else longer

unfoldable pub decimal : ℕ → List ℕ
unfolding decimal_before
decimal n = decimal_before (suc n) n []

digit_lem :
    (value d : ℕ)
    → d < 10
    → value * 10 + d < 2 ^ 64
    → append_digit 10 value (digit_of (b'0' + d)) ≡ some (value * 10 + d)
unfolding append_digit digit_of
digit_lem value d small fits = ground arith

parse_decimal :
    (fuel n : ℕ) (rest : List ℕ)
    → n < fuel
    → n < 2 ^ 64
    → parse_digits 10 (some 0) (decimal_before fuel n rest) ≡ parse_digits 10 (some n) rest
unfolding parse_digits decimal_before
parse_decimal zero n rest small fits = elim small [ ]
parse_decimal (suc fuel) n rest small fits = elim (Bool-cases (ltb n 10)) [
  | inl one ↦
      let zero_digit : 0 * 10 + n ≡ n = omega arith in
      rw one (
        ap (λ o. parse_digits 10 o rest)
          (digit_lem 0 n (ground arith) (omega arith) ∙ ap some zero_digit))
  | inr more ↦
      let q : n / 10 * 10 + n % 10 ≡ n = omega arith in
      rw more (
        parse_decimal fuel (n / 10) ((b'0' + n % 10) ∷ rest) (ground arith) (omega arith)
        ∙ ap (λ o. parse_digits 10 o rest)
            (digit_lem (n / 10) (n % 10) (omega arith) (omega arith) ∙ ap some q))
]

first_digit :
    (d : ℕ) (rest : List ℕ)
    → from_str ((b'0' + d) ∷ rest) ≡ parse_digits 10 (some 0) ((b'0' + d) ∷ rest)
unfolding from_str from_str_radix
first_digit d [] = refl
first_digit d (e ∷ cs) = let digit : (b'0' + d == b'+') ≡ false = ground arith in rw digit refl

-- The notation of a number starts with a digit.
starts :
    (fuel n : ℕ) (rest : List ℕ)
    → n < fuel
    → from_str (decimal_before fuel n rest) ≡ parse_digits 10 (some 0) (decimal_before fuel n rest)
unfolding decimal_before
starts zero n rest small = elim small [ ]
starts (suc fuel) n rest small = elim (Bool-cases (ltb n 10)) [
  | inl one ↦ rw one (first_digit n rest)
  | inr more ↦ rw more (starts fuel (n / 10) ((b'0' + n % 10) ∷ rest) (ground arith))
]

-- A number of 64 bits is read back from its decimal notation.
pub from_str-decimal : (n : ℕ) → n < 2 ^ 64 → from_str (decimal n) ≡ some n
unfolding decimal
from_str-decimal n fits =
    starts (suc n) n [] (omega arith)
    ∙ parse_decimal (suc n) n [] (omega arith) fits
    ∙ unfold parse_digits in refl
