-- ===== src/Io/Serial.antt =====
-- `receive` of src/0x01/pkg/kernel/src/interrupt/serial.rs, the handler of the serial port's
-- interrupt, with `from_utf8` of the standard library. What the port holds is a list of bytes.
pub mod Typed
use yat_sen_os.Prelude.{
  ℕ, ◌+◌, ◌-◌, ◌*◌, Bool, Option, some, none, List, [], ◌∷◌, ◌++◌, ltb, leb, ◌==◌, ◌&&◌,
  if◌then◌else◌, length,
}
use mathlib.Core.Option
use yat_sen_os.Io.Input.{Key, unicode, push_key}

abbrev pub in_range : ℕ → ℕ → ℕ → Bool
in_range lo hi b = leb lo b && leb b hi

abbrev pub is_continuation : ℕ → Bool
is_continuation b = in_range 0x80 0xBF b

-- The second byte of a longer form: no overlong forms, no surrogates, nothing above 0x10FFFF.
abbrev pub is_second : ℕ → ℕ → Bool
is_second a b =
    if a == 0xE0
    then in_range 0xA0 0xBF b
    else if a == 0xED
    then in_range 0x80 0x9F b
    else if a == 0xF0
    then in_range 0x90 0xBF b
    else if a == 0xF4
    then in_range 0x80 0x8F b
    else is_continuation b

-- A character, before the characters that were decoded from the bytes after it.
abbrev pub prepend : ℕ → Option (List ℕ) → Option (List ℕ)
prepend c rest = Option.map (λ cs. c ∷ cs) rest

abbrev pub one_byte : ℕ → Option (List ℕ) → Option (List ℕ)
one_byte a rest = if ltb a 0x80 then prepend a rest else none

abbrev pub two_bytes : ℕ → ℕ → Option (List ℕ) → Option (List ℕ)
two_bytes a b rest =
    if in_range 0xC2 0xDF a && is_continuation b
    then prepend ((a - 0xC0) * 64 + (b - 0x80)) rest
    else none

abbrev pub three_bytes : ℕ → ℕ → ℕ → Option (List ℕ) → Option (List ℕ)
three_bytes a b c rest =
    if in_range 0xE0 0xEF a && is_second a b && is_continuation c
    then prepend ((a - 0xE0) * 4096 + (b - 0x80) * 64 + (c - 0x80)) rest
    else none

abbrev pub four_bytes : ℕ → ℕ → ℕ → ℕ → Option (List ℕ) → Option (List ℕ)
four_bytes a b c d rest =
    if in_range 0xF0 0xF4 a && is_second a b && is_continuation c && is_continuation d
    then prepend ((a - 0xF0) * 262144 + (b - 0x80) * 4096 + (c - 0x80) * 64 + (d - 0x80)) rest
    else none

-- The characters of the bytes, or `none` where they are no UTF-8.
unfoldable pub from_utf8 : List ℕ → Option (List ℕ)
from_utf8 [] = some []
from_utf8 (a ∷ []) = one_byte a (some [])
from_utf8 (a ∷ b ∷ []) =
    if ltb a 0x80 then one_byte a (from_utf8 (b ∷ [])) else two_bytes a b (some [])
from_utf8 (a ∷ b ∷ c ∷ []) =
    if ltb a 0x80
    then one_byte a (from_utf8 (b ∷ c ∷ []))
    else if ltb a 0xE0
    then two_bytes a b (from_utf8 (c ∷ []))
    else three_bytes a b c (some [])
from_utf8 (a ∷ b ∷ c ∷ d ∷ bytes) =
    if ltb a 0x80
    then one_byte a (from_utf8 (b ∷ c ∷ d ∷ bytes))
    else if ltb a 0xE0
    then two_bytes a b (from_utf8 (c ∷ d ∷ bytes))
    else if ltb a 0xF0
    then three_bytes a b c (from_utf8 (d ∷ bytes))
    else four_bytes a b c d (from_utf8 bytes)

abbrev pub input_buffer_size : ℕ
input_buffer_size = 4

-- What is left of the bytes of one handler, and the keys, after the bytes were looked at.
unfoldable pub accept : Option (List ℕ) → List ℕ → List Key → List ℕ × List Key
accept none buf input = (if leb input_buffer_size (length buf) then [] else buf, input)
accept (some []) buf input = (buf, input)
accept (some (ch ∷ chars)) buf input = ([], push_key (unicode ch) input)

-- The loop, until the port has no byte more; `buf` is `input_buffer`.
unfoldable pub receive_loop : List ℕ → List ℕ → List Key → List Key
unfolding from_utf8 accept
receive_loop [] buf input = input
receive_loop (c ∷ bytes) buf input =
    let grown = buf ++ c ∷ [] in
    let (buf', input') = accept (from_utf8 grown) grown input in receive_loop bytes buf' input'

-- The buffer is a local of the handler.
unfoldable pub receive : List ℕ → List Key → List Key
unfolding receive_loop
receive bytes input = receive_loop bytes [] input
