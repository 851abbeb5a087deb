-- ===== src/Io/Serial/Typed.antt =====
-- What is typed arrives: the bytes of a text in UTF-8, received in one interrupt, are the text.
use yat_sen_os.Prelude.{
  ℕ, zero, suc, dec_lt, ◌+◌, ◌-◌, ◌*◌, ◌/◌, ◌%◌, ◌≤◌, ◌<◌, ◌≡◌, refl, ap, true, false, List, [],
  ◌∷◌, ◌++◌, some, none, arith, ltb, leb, Bool-cases, inl, inr, ◌⊎◌, ◌∙◌, length, take, drop, map,
  sym, length-append,
}
use yat_sen_os.Io.Input.{Key, unicode, push_key, try_pop_key}
use mathlib.Core.List.{append-nil, append_assoc}
use yat_sen_os.BTreeMap.{get, insert}
use yat_sen_os.Io.Resources
use yat_sen_os.Io.Resources.{encode_utf8}
use yat_sen_os.Io.Serial.{is_second, is_continuation, from_utf8, accept, receive_loop, receive}

-- The code points of characters.
abbrev pub IsScalar : ℕ → Type 0
IsScalar c = (c < 0xD800) ⊎ ((0xE000 ≤ c) × (c < 0x110000))

abbrev pub AreScalars : List ℕ → Type 0
AreScalars [] = Unit {0}
AreScalars (c ∷ cs) = IsScalar c × AreScalars cs

-- The bytes of a text.
abbrev pub encode : List ℕ → List ℕ
encode [] = []
encode (c ∷ cs) = encode_utf8 c ++ encode cs

abbrev pub push_all : List ℕ → List Key → List Key
push_all [] input = input
push_all (c ∷ cs) input = push_all cs (push_key (unicode c) input)

-- A byte that completes no character, in a buffer with room.
step_more :
    (c : ℕ) (bytes buf : List ℕ) (input : List Key)
    → from_utf8 (buf ++ c ∷ []) ≡ none
    → leb 4 (length (buf ++ c ∷ [])) ≡ false
    → receive_loop (c ∷ bytes) buf input ≡ receive_loop bytes (buf ++ c ∷ []) input
unfolding receive_loop accept
step_more c bytes buf input e small = rw (e, accept, small) refl

step_done :
    (c ch : ℕ) (bytes buf chars : List ℕ) (input : List Key)
    → from_utf8 (buf ++ c ∷ []) ≡ some (ch ∷ chars)
    → receive_loop (c ∷ bytes) buf input ≡ receive_loop bytes [] (push_key (unicode ch) input)
unfolding receive_loop accept
step_done c ch bytes buf chars input e = rw (e, accept) refl

two_lem :
    (c : ℕ) (rest : List ℕ) (input : List Key)
    → 0x80 ≤ c
    → c < 0x800
    → receive_loop ((0xC0 + c / 64) ∷ (0x80 + c % 64) ∷ rest) [] input
      ≡ receive_loop rest [] (push_key (unicode c) input)
two_lem c rest input lo hi =
    step_more (0xC0 + c / 64) _ [] input (unfold from_utf8 in ground arith) refl
    ∙ step_done (0x80 + c % 64) c rest ((0xC0 + c / 64) ∷ []) [] input
        (unfold from_utf8 in ground arith)

three_lem :
    (c : ℕ) (rest : List ℕ) (input : List Key)
    → 0x800 ≤ c
    → c < 0x10000
    → IsScalar c
    → receive_loop ((0xE0 + c / 4096) ∷ (0x80 + c / 64 % 64) ∷ (0x80 + c % 64) ∷ rest) [] input
      ≡ receive_loop rest [] (push_key (unicode c) input)
three_lem c rest input lo hi scalar =
    let a = λ (n : ℕ). 0xE0 + n / 4096 in
    step_more (a c) _ [] input (unfold from_utf8 in ground arith) refl
    ∙ step_more (0x80 + c / 64 % 64) _ (a c ∷ []) input (unfold from_utf8 in ground arith) refl
    ∙ step_done (0x80 + c % 64) c rest (a c ∷ (0x80 + c / 64 % 64) ∷ []) [] input
        (unfold from_utf8 in ground arith)

value :
    (c : ℕ)
    → 0x10000 ≤ c
    → (0xF0 + c / 262144 - 0xF0) * 262144
        + (0x80 + c / 4096 % 64 - 0x80) * 4096
        + (0x80 + c / 64 % 64 - 0x80) * 64
        + (0x80 + c % 64 - 0x80)
      ≡ c
value c lo = omega arith

decoded_four :
    (a b c d : ℕ)
    → 0xF0 ≤ a
    → a ≤ 0xF4
    → is_second a b ≡ true
    → is_continuation c ≡ true
    → is_continuation d ≡ true
    → from_utf8 (a ∷ b ∷ c ∷ d ∷ [])
      ≡ some (((a - 0xF0) * 262144 + (b - 0x80) * 4096 + (c - 0x80) * 64 + (d - 0x80)) ∷ [])
unfolding from_utf8
decoded_four a b c d lo hi second third fourth =
    let small : leb a 0xF4 ≡ true = ground arith in
    let large : leb 0xF0 a ≡ true = ground arith in
    let not_one : ltb a 0x80 ≡ false = ground arith in
    let not_two : ltb a 0xE0 ≡ false = ground arith in
    let not_three : ltb a 0xF0 ≡ false = ground arith in
    rw (not_one, not_two, not_three, large, small, second, third, fourth) refl

four_lem :
    (c : ℕ) (rest : List ℕ) (input : List Key)
    → 0x10000 ≤ c
    → IsScalar c
    → receive_loop
        ((0xF0 + c / 262144)
          ∷ (0x80 + c / 4096 % 64)
          ∷ (0x80 + c / 64 % 64)
          ∷ (0x80 + c % 64)
          ∷ rest)
        []
        input
      ≡ receive_loop rest [] (push_key (unicode c) input)
four_lem c rest input lo scalar =
    let a : ℕ = 0xF0 + c / 262144 in
    let b : ℕ = 0x80 + c / 4096 % 64 in
    let d : ℕ = 0x80 + c / 64 % 64 in
    step_more a _ [] input (unfold from_utf8 in ground arith) refl
    ∙ step_more b _ (a ∷ []) input (unfold from_utf8 in ground arith) refl
    ∙ step_more d _ (a ∷ b ∷ []) input (unfold from_utf8 in ground arith) refl
    ∙ step_done (0x80 + c % 64) c rest (a ∷ b ∷ d ∷ []) [] input (
        decoded_four a b d (0x80 + c % 64) (omega arith) (ground arith) (ground arith)
          (ground arith) (ground arith)
        ∙ ap (λ n. some (n ∷ [])) (value c lo))

-- The bytes of a character, received with an empty buffer.
receive_char :
    (c : ℕ) (rest : List ℕ) (input : List Key)
    → IsScalar c
    → receive_loop (encode_utf8 c ++ rest) [] input
      ≡ receive_loop rest [] (push_key (unicode c) input)
unfolding encode_utf8
receive_char c rest input scalar = elim (Bool-cases (ltb c 0x80)) [
  | inl one ↦ rw one (step_done c c rest [] [] input (unfold from_utf8 in ground arith))
  | inr more ↦ rw more (elim (Bool-cases (ltb c 0x800)) [
    | inl two ↦ rw two (two_lem c rest input (ground arith) (ground arith))
    | inr more' ↦ rw more' (elim (Bool-cases (ltb c 0x10000)) [
      | inl three ↦ rw three (three_lem c rest input (ground arith) (ground arith) scalar)
      | inr four ↦ rw four (four_lem c rest input (ground arith) scalar)
    ])
  ])
]

receive_text :
    (cs : List ℕ) (input : List Key)
    → AreScalars cs
    → receive_loop (encode cs) [] input ≡ push_all cs input
receive_text [] input scalars = unfold receive_loop in refl
receive_text (c ∷ cs) input scalars =
    receive_char c (encode cs) input scalars.0
    ∙ receive_text cs (push_key (unicode c) input) scalars.1

dropped : (b : ℕ) (input : List Key) → 0x80 ≤ b → b < 0x100 → receive (b ∷ []) input ≡ input
unfolding receive
dropped b input high low =
    step_more b [] [] input (unfold from_utf8 in ground arith) refl ∙ unfold receive_loop in refl

-- A character of two bytes that come in two interrupts is lost.
pub receive-split :
    (c : ℕ) (input : List Key)
    → 0x80 ≤ c
    → c < 0x800
    → receive (drop 1 (encode_utf8 c)) (receive (take 1 (encode_utf8 c)) input) ≡ input
unfolding encode_utf8
receive-split c input lo hi =
    let not_one : ltb c 0x80 ≡ false = ground arith in
    let two : ltb c 0x800 ≡ true = ground arith in
    rw (not_one, two)
      (dropped (0x80 + c % 64) (receive ((0xC0 + c / 64) ∷ []) input) (omega arith) (omega arith)
        ∙ dropped (0xC0 + c / 64) input (omega arith) (omega arith))

push_all-map :
    (cs : List ℕ) (input : List Key)
    → length input + length cs ≤ 128
    → push_all cs input ≡ input ++ map unicode cs
unfolding push_key
push_all-map [] input room = sym (append-nil input)
push_all-map (c ∷ cs) input room =
    let fits : ltb (length input) 128 ≡ true = ground arith in
    rw fits (
      push_all-map cs (input ++ unicode c ∷ [])
        (omega (arith, length-append input (unicode c ∷ [])))
      ∙ append_assoc input (unicode c ∷ []) (map unicode cs))

take-full : (n : ℕ) (xs ys : List Key) → length xs ≡ n → take n (xs ++ ys) ≡ xs
take-full zero [] ys e = refl
take-full zero (x ∷ xs) ys e = absurd (omega arith)
take-full (suc n) [] ys e = absurd (omega arith)
take-full (suc n) (x ∷ xs) ys e = ap (λ z. x ∷ z) (take-full n xs ys (omega arith))

take-short : (n : ℕ) (xs : List Key) → length xs ≤ n → take n xs ≡ xs
take-short zero [] h = refl
take-short (suc n) [] h = refl
take-short zero (x ∷ xs) h = absurd (omega arith)
take-short (suc n) (x ∷ xs) h = ap (λ z. x ∷ z) (take-short n xs (omega arith))

-- The queue takes keys until it holds 128, and drops those that come after.
push_all-take :
    (cs : List ℕ) (input : List Key)
    → length input ≤ 128
    → push_all cs input ≡ take 128 (input ++ map unicode cs)
unfolding push_key
push_all-take [] input fits =
    sym (take-short 128 input fits) ∙ ap (take 128) (sym (append-nil input))
push_all-take (c ∷ cs) input fits = elim (dec_lt (length input) 128) [
  | yes room ↦
      let roomy : ltb (length input) 128 ≡ true = ground arith in
      rw roomy (
        push_all-take cs (input ++ unicode c ∷ [])
          (omega (arith, length-append input (unicode c ∷ [])))
        ∙ ap (take 128) (append_assoc input (unicode c ∷ []) (map unicode cs)))
  | no full ↦
      let not_roomy : ltb (length input) 128 ≡ false = ground arith in
      let all : length input ≡ 128 = omega arith in
      rw not_roomy (
        push_all-take cs input fits
        ∙ take-full 128 input (map unicode cs) all
        ∙ sym (take-full 128 input (map unicode (c ∷ cs)) all))
]

-- The UTF-8 bytes of a text, received by one interrupt of the serial port: the characters of the text
-- are put into the input buffer in their order, behind what is in it, as far as it holds no more than
-- 128 keys; the characters after that are lost.
pub receive-encode :
    (cs : List ℕ) (input : List Key)
    → AreScalars cs
    → length input ≤ 128
    → receive (encode cs) input ≡ take 128 (input ++ map unicode cs)
unfolding receive
receive-encode cs input scalars fits = receive_text cs input scalars ∙ push_all-take cs input fits

-- A text of at most 128 characters is typed, and received by one interrupt with the input buffer
-- empty: a read of descriptor 0 into a buffer of at least 4 bytes gives the bytes of the first
-- character, and leaves the others in the input buffer.
pub read-receive :
    (c : ℕ) (cs : List ℕ) (size : ℕ)
    → AreScalars (c ∷ cs)
    → length (c ∷ cs) ≤ 128
    → 4 ≤ size
    → Resources.read 0 size (receive (encode (c ∷ cs)) []) Resources.default
      ≡ (length (encode_utf8 c), encode_utf8 c, map unicode cs)
unfolding Resources.read Resources.read_resource Resources.read_stdin Resources.default
    Resources.open_resource Resources.encoded try_pop_key get insert
read-receive c cs size scalars short room =
    let roomy : ltb size 4 ≡ false = ground arith in
    let typed : receive (encode (c ∷ cs)) [] ≡ push_all (c ∷ cs) [] =
      unfold receive in receive_text (c ∷ cs) [] scalars in
    rw (typed, push_all-map (c ∷ cs) [] (omega arith), roomy) refl
