-- ===== src/Boot/Config.antt =====
-- `Config` of src/0x01/pkg/boot/src/config.rs, over the characters of the file. `lines`, `trim` and
-- `split_once` are those of the standard library.
use yat_sen_os.Prelude.{
  ℕ, Bool, true, Option, some, none, List, [], ◌∷◌, ltb, leb, ◌==◌, ◌||◌, ◌&&◌, not, if◌then◌else◌,
  Outcome, ok, panic, ◌>>=◌,
}
use yat_sen_os.Io.Input.{len_utf8, string_len}
use yat_sen_os.Proc.Data.{same_string}
use yat_sen_os.Text.{from_str, from_str_radix}

pub record Config : Type 0 where
  pub kernel_stack_address : ℕ
  pub kernel_stack_auto_grow : ℕ
  pub kernel_stack_size : ℕ
  pub physical_memory_offset : ℕ
  pub kernel_path : List ℕ
  pub cmdline : List ℕ
  pub load_apps : Bool

-- "\KERNEL.ELF"
abbrev pub kernel_file : List ℕ
kernel_file = 0x5C ∷ b'K' ∷ b'E' ∷ b'R' ∷ b'N' ∷ b'E' ∷ b'L' ∷ b'.' ∷ b'E' ∷ b'L' ∷ b'F' ∷ []

unfoldable pub default_config : Config
default_config = record {
  kernel_stack_address = 0xFFFF_FF01_0000_0000;
  kernel_stack_auto_grow = 0;
  kernel_stack_size = 512;
  physical_memory_offset = 0xFFFF_8000_0000_0000;
  kernel_path = kernel_file;
  cmdline = [];
  load_apps = true;
}

abbrev pub is_space : ℕ → Bool
is_space c =
    (leb 0x09 c && leb c 0x0D)
    || (c == 0x20)
    || (c == 0x85)
    || (c == 0xA0)
    || (c == 0x1680)
    || (leb 0x2000 c && leb c 0x200A)
    || (c == 0x2028)
    || (c == 0x2029)
    || (c == 0x202F)
    || (c == 0x205F)
    || (c == 0x3000)

unfoldable pub trim_start : List ℕ → List ℕ
trim_start [] = []
trim_start (c ∷ cs) = if is_space c then trim_start cs else c ∷ cs

-- A character at the end stays where it is no space, or where something after it stays.
abbrev pub keep_before : ℕ → List ℕ → List ℕ
keep_before c [] = if is_space c then [] else c ∷ []
keep_before c (d ∷ ds) = c ∷ d ∷ ds

unfoldable pub trim_end : List ℕ → List ℕ
trim_end [] = []
trim_end (c ∷ cs) = keep_before c (trim_end cs)

unfoldable pub trim : List ℕ → List ℕ
unfolding trim_start trim_end
trim s = trim_end (trim_start s)

-- The text before the first such character and after it.
abbrev pub put_first : ℕ → Option (List ℕ × List ℕ) → Option (List ℕ × List ℕ)
put_first c none = none
put_first c (some (before, after)) = some (c ∷ before, after)

unfoldable pub split_once : ℕ → List ℕ → Option (List ℕ × List ℕ)
split_once sep [] = none
split_once sep (c ∷ cs) = if c == sep then some ([], cs) else put_first c (split_once sep cs)

-- `value.len() > 2` and `&value[2..]`, by bytes: a cut within a character panics.
unfoldable pub after_two : List ℕ → Outcome (List ℕ)
after_two [] = panic
after_two (c ∷ []) = if len_utf8 c == 2 then ok [] else panic
after_two (c ∷ d ∷ cs) =
    if len_utf8 c == 2
    then ok (d ∷ cs)
    else if (len_utf8 c == 1) && (len_utf8 d == 1)
    then ok cs
    else panic

abbrev pub or_zero : Option ℕ → ℕ
or_zero none = 0
or_zero (some n) = n

unfoldable pub hexadecimal : List ℕ → Outcome ℕ
unfolding after_two
hexadecimal value =
    if ltb 2 (string_len value)
    then (do digits ← after_two value; ok (or_zero (from_str_radix 16 digits)))
    else ok 0

-- The key of a field, by its letters.
pub data Field : Type 0 where
  stack_address stack_size memory_offset path auto_grow command_line apps : Field

abbrev pub name : Field → List ℕ
name Field.stack_address =
    b'k' ∷ b'e' ∷ b'r' ∷ b'n' ∷ b'e' ∷ b'l' ∷ b'_' ∷ b's' ∷ b't' ∷ b'a' ∷ b'c' ∷ b'k' ∷ b'_' ∷ b'a'
    ∷ b'd' ∷ b'd' ∷ b'r' ∷ b'e' ∷ b's' ∷ b's' ∷ []
name Field.stack_size =
    b'k' ∷ b'e' ∷ b'r' ∷ b'n' ∷ b'e' ∷ b'l' ∷ b'_' ∷ b's' ∷ b't' ∷ b'a' ∷ b'c' ∷ b'k' ∷ b'_' ∷ b's'
    ∷ b'i' ∷ b'z' ∷ b'e' ∷ []
name Field.memory_offset =
    b'p' ∷ b'h' ∷ b'y' ∷ b's' ∷ b'i' ∷ b'c' ∷ b'a' ∷ b'l' ∷ b'_' ∷ b'm' ∷ b'e' ∷ b'm' ∷ b'o' ∷ b'r'
    ∷ b'y' ∷ b'_' ∷ b'o' ∷ b'f' ∷ b'f' ∷ b's' ∷ b'e' ∷ b't' ∷ []
name Field.path = b'k' ∷ b'e' ∷ b'r' ∷ b'n' ∷ b'e' ∷ b'l' ∷ b'_' ∷ b'p' ∷ b'a' ∷ b't' ∷ b'h' ∷ []
name Field.auto_grow =
    b'k' ∷ b'e' ∷ b'r' ∷ b'n' ∷ b'e' ∷ b'l' ∷ b'_' ∷ b's' ∷ b't' ∷ b'a' ∷ b'c' ∷ b'k' ∷ b'_' ∷ b'a'
    ∷ b'u' ∷ b't' ∷ b'o' ∷ b'_' ∷ b'g' ∷ b'r' ∷ b'o' ∷ b'w' ∷ []
name Field.command_line = b'c' ∷ b'm' ∷ b'd' ∷ b'l' ∷ b'i' ∷ b'n' ∷ b'e' ∷ []
name Field.apps = b'l' ∷ b'o' ∷ b'a' ∷ b'd' ∷ b'_' ∷ b'a' ∷ b'p' ∷ b'p' ∷ b's' ∷ []

-- The `match` on the key; `none` is a key that is not known, which is logged.
unfoldable pub field_of : List ℕ → Option Field
field_of key =
    if same_string key (name Field.stack_address)
    then some Field.stack_address
    else if same_string key (name Field.stack_size)
    then some Field.stack_size
    else if same_string key (name Field.memory_offset)
    then some Field.memory_offset
    else if same_string key (name Field.path)
    then some Field.path
    else if same_string key (name Field.auto_grow)
    then some Field.auto_grow
    else if same_string key (name Field.command_line)
    then some Field.command_line
    else if same_string key (name Field.apps)
    then some Field.apps
    else none

unfoldable pub set_field : Option Field → List ℕ → ℕ → ℕ → Config → Config
set_field none value r10 r16 c = c
set_field (some Field.stack_address) value r10 r16 c = record c { kernel_stack_address = r16 }
set_field (some Field.stack_size) value r10 r16 c = record c { kernel_stack_size = r10 }
set_field (some Field.memory_offset) value r10 r16 c = record c { physical_memory_offset = r16 }
set_field (some Field.path) value r10 r16 c = record c { kernel_path = value }
set_field (some Field.auto_grow) value r10 r16 c = record c { kernel_stack_auto_grow = r10 }
set_field (some Field.command_line) value r10 r16 c = record c { cmdline = value }
set_field (some Field.apps) value r10 r16 c = record c { load_apps = not (r10 == 0) }

unfoldable pub process : List ℕ → List ℕ → Config → Outcome Config
unfolding hexadecimal field_of set_field
process key value c = do
  r16 ← hexadecimal value
  ok (set_field (field_of key) value (or_zero (from_str value)) r16 c)

abbrev pub process_pair : Option (List ℕ × List ℕ) → Config → Outcome Config
process_pair none c = ok c
process_pair (some (key, value)) c = process key value c

-- A line that was trimmed: an empty one and a comment are skipped.
unfoldable pub parse_trimmed : List ℕ → Config → Outcome Config
unfolding split_once process
parse_trimmed [] c = ok c
parse_trimmed (d ∷ line) c = if d == b'#' then ok c else process_pair (split_once b'=' (d ∷ line)) c

unfoldable pub parse_lines : List (List ℕ) → Config → Outcome Config
unfolding trim parse_trimmed
parse_lines [] c = ok c
parse_lines (line ∷ lines) c = do c' ← parse_trimmed (trim line) c; parse_lines lines c'

-- `str::lines`: a line ends with a line feed; the last one need not. A carriage return at the end of
-- a line is a space, which `trim` takes off.
abbrev pub add_to_first : ℕ → List (List ℕ) → List (List ℕ)
add_to_first c [] = (c ∷ []) ∷ []
add_to_first c (line ∷ lines) = (c ∷ line) ∷ lines

unfoldable pub lines_of : List ℕ → List (List ℕ)
lines_of [] = []
lines_of (c ∷ cs) = if c == 0x0A then [] ∷ lines_of cs else add_to_first c (lines_of cs)

unfoldable pub parse : List ℕ → Outcome Config
unfolding parse_lines lines_of default_config
parse content = parse_lines (lines_of content) default_config
