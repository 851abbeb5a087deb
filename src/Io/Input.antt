-- ===== src/Io/Input.antt =====
-- The input buffer of src/0x01/pkg/kernel/src/drivers/input.rs. What is echoed to the terminal is left
-- out.
pub mod Order
pub mod Lines
use yat_sen_os.Prelude.{
  ℕ, ◌+◌, ◌*◌, ◌/◌, ◌%◌, Bool, true, false, Option, some, none, List, [], ◌∷◌, ◌++◌, ltb, ◌==◌,
  ◌||◌, if◌then◌else◌, length, Outcome, ok, endless,
}

-- `DecodedKey`: a character by its code point, or a key that is none.
pub data Key : Type 0 where
  unicode : ℕ → Key
  raw_key : ℕ → Key

abbrev pub buffer_size : ℕ
buffer_size = 128

-- A key is dropped where the queue is full.
unfoldable pub push_key : Key → List Key → List Key
push_key key buf = if ltb (length buf) buffer_size then buf ++ key ∷ [] else buf

unfoldable pub try_pop_key : List Key → Option Key × List Key
try_pop_key [] = (none, [])
try_pop_key (key ∷ rest) = (some key, rest)

-- How many bytes a character takes in a string.
abbrev pub len_utf8 : ℕ → ℕ
len_utf8 c = if ltb c 0x80 then 1 else (if ltb c 0x800 then 2 else (if ltb c 0x10000 then 3 else 4))

abbrev pub string_len : List ℕ → ℕ
string_len [] = 0
string_len (c ∷ cs) = len_utf8 c + string_len cs

-- `String::pop`, which leaves an empty string as it is.
unfoldable pub pop_last : List ℕ → List ℕ
pop_last [] = []
pop_last (c ∷ []) = []
pop_last (c ∷ d ∷ cs) = c ∷ pop_last (d ∷ cs)

abbrev pub is_backspace : ℕ → Bool
is_backspace c = (c == 0x08) || (c == 0x7F)

abbrev pub is_newline : ℕ → Bool
is_newline c = (c == 0x0A) || (c == 0x0D)

-- A key that ends no line.
unfoldable pub edit : Key → List ℕ → List ℕ
unfolding pop_last
edit (raw_key k) line = line
edit (unicode c) line =
    if is_backspace c
    then pop_last line
    else (if ltb (string_len line) buffer_size then line ++ c ∷ [] else line)

abbrev pub ends_line : Key → Bool
ends_line (raw_key k) = false
ends_line (unicode c) = is_newline c

-- The loop of `get_line`, over the keys that it is given; without a further key it waits.
unfoldable pub read_line : List Key → List ℕ → Outcome (List ℕ × List Key)
unfolding edit
read_line [] line = endless
read_line (key ∷ keys) line =
    let rest = read_line keys (edit key line) in if ends_line key then ok (line, keys) else rest

unfoldable pub get_line : List Key → Outcome (List ℕ × List Key)
unfolding read_line
get_line keys = read_line keys []
