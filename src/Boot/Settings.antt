-- ===== src/Boot/Settings.antt =====
-- What a configuration file sets.
use yat_sen_os.Prelude.{
  ℕ, ◌≤◌, ◌≡◌, refl, Bool, true, false, not, ap, ◌∙◌, List, [], ◌∷◌, ◌++◌, some, ok, ltb, ◌==◌,
  length, drop, if◌then◌else◌, arith, Bool-cases, inl, inr,
}
use yat_sen_os.Io.Input.{len_utf8, string_len}
use yat_sen_os.Text.{from_str, from_str_radix}
use yat_sen_os.Boot.Config.{
  Config, default_config, is_space, trim_start, trim_end, trim, split_once, hexadecimal, after_two,
  Field, name, field_of, set_field, process, or_zero, parse_trimmed, parse_lines, lines_of, parse,
}

-- Printable ASCII without spaces.
abbrev pub Solid : List ℕ → Type 0
Solid [] = Unit {0}
Solid (c ∷ cs) = (0x21 ≤ c) × (c ≤ 0x7E) × Solid cs

abbrev pub Settings : Type 0
Settings = List (Field × List ℕ)

abbrev pub AreSolid : Settings → Type 0
AreSolid [] = Unit {0}
AreSolid ((f, value) ∷ settings) = Solid value × AreSolid settings

-- A line `key=value` for each setting.
abbrev pub render : Settings → List ℕ
render [] = []
render ((f, value) ∷ settings) = (name f ++ b'=' ∷ value) ++ 0x0A ∷ render settings

-- The number in a value, in decimal digits, or in hexadecimal ones after a prefix of two characters.
abbrev pub hex_value : List ℕ → ℕ
hex_value value = if ltb 2 (length value) then or_zero (from_str_radix 16 (drop 2 value)) else 0

abbrev pub decimal_value : List ℕ → ℕ
decimal_value value = or_zero (from_str value)

abbrev pub same_field : Field → Field → Bool
same_field Field.stack_address Field.stack_address = true
same_field Field.stack_size Field.stack_size = true
same_field Field.memory_offset Field.memory_offset = true
same_field Field.path Field.path = true
same_field Field.auto_grow Field.auto_grow = true
same_field Field.command_line Field.command_line = true
same_field Field.apps Field.apps = true
same_field f g = false

-- What the last setting of a field says, and `old` where there is none.
abbrev pub last_of {ℓ} : {A : Type ℓ} → (List ℕ → A) → Field → Settings → A → A
last_of read f [] old = old
last_of read f ((g, value) ∷ settings) old =
    last_of read f settings (if same_field f g then read value else old)

-- Each field by its own last setting.
abbrev pub configured : Settings → Config → Config
configured settings c = record {
  kernel_stack_address = last_of hex_value Field.stack_address settings c.kernel_stack_address;
  kernel_stack_auto_grow = last_of decimal_value Field.auto_grow settings c.kernel_stack_auto_grow;
  kernel_stack_size = last_of decimal_value Field.stack_size settings c.kernel_stack_size;
  physical_memory_offset = last_of hex_value Field.memory_offset settings c.physical_memory_offset;
  kernel_path = last_of (λ value. value) Field.path settings c.kernel_path;
  cmdline = last_of (λ value. value) Field.command_line settings c.cmdline;
  load_apps = last_of (λ value. not (decimal_value value == 0)) Field.apps settings c.load_apps;
}

-- The code's step for one setting.
configured-set_field :
    (f : Field) (value : List ℕ) (settings : Settings) (c : Config)
    → configured settings (set_field (some f) value (decimal_value value) (hex_value value) c)
      ≡ configured ((f, value) ∷ settings) c
unfolding set_field
configured-set_field Field.stack_address value settings c = refl
configured-set_field Field.stack_size value settings c = refl
configured-set_field Field.memory_offset value settings c = refl
configured-set_field Field.path value settings c = refl
configured-set_field Field.auto_grow value settings c = refl
configured-set_field Field.command_line value settings c = refl
configured-set_field Field.apps value settings c = refl

lines_of-line : (s rest : List ℕ) → Solid s → lines_of (s ++ 0x0A ∷ rest) ≡ s ∷ lines_of rest
unfolding lines_of
lines_of-line [] rest solid = refl
lines_of-line (c ∷ s) rest (lo, hi, solid) =
    let other : (c == 0x0A) ≡ false = ground arith in rw (other, lines_of-line s rest solid) refl

solid_char : (c : ℕ) → 0x21 ≤ c → c ≤ 0x7E → is_space c ≡ false
solid_char c lo hi = ground arith

trim_end-Solid : (s : List ℕ) → Solid s → trim_end s ≡ s
unfolding trim_end
trim_end-Solid [] solid = refl
trim_end-Solid (c ∷ []) (lo, hi, solid) = rw (solid_char c lo hi) refl
trim_end-Solid (c ∷ d ∷ s) (lo, hi, solid) = rw (trim_end-Solid (d ∷ s) solid) refl

trim-Solid : (s : List ℕ) → Solid s → trim s ≡ s
unfolding trim trim_start
trim-Solid [] solid = trim_end-Solid [] solid
trim-Solid (c ∷ s) (lo, hi, solid) =
    rw (solid_char c lo hi) (trim_end-Solid (c ∷ s) (lo, hi, solid))

string_len-Solid : (s : List ℕ) → Solid s → string_len s ≡ length s
string_len-Solid [] solid = refl
string_len-Solid (c ∷ s) (lo, hi, solid) = ground (arith, string_len-Solid s solid)

one_byte : (c : ℕ) → c ≤ 0x7E → len_utf8 c ≡ 1
one_byte c hi = ground arith

hexadecimal-Solid : (value : List ℕ) → Solid value → hexadecimal value ≡ ok (hex_value value)
unfolding hexadecimal after_two
hexadecimal-Solid [] solid = refl
hexadecimal-Solid (c ∷ []) (lo, hi, solid) = rw (one_byte c hi) refl
hexadecimal-Solid (c ∷ d ∷ s) (lo, hi, (lo', hi', solid)) =
    let total : string_len (c ∷ d ∷ s) ≡ length (c ∷ d ∷ s) =
      string_len-Solid (c ∷ d ∷ s) (lo, hi, (lo', hi', solid)) in
    elim (Bool-cases (ltb 2 (length (c ∷ d ∷ s)))) [
      | inl long ↦ rw (total, long) (rw (after_two, one_byte c hi, one_byte d hi') refl)
      | inr short ↦ rw (total, short) refl
    ]

Solid-append : (xs ys : List ℕ) → Solid xs → Solid ys → Solid (xs ++ ys)
Solid-append [] ys solid solid' = solid'
Solid-append (x ∷ xs) ys (lo, hi, solid) solid' = (lo, hi, Solid-append xs ys solid solid')

name_Solid : (f : Field) → Solid (name f)
name_Solid Field.stack_address = omega arith
name_Solid Field.stack_size = omega arith
name_Solid Field.memory_offset = omega arith
name_Solid Field.path = omega arith
name_Solid Field.auto_grow = omega arith
name_Solid Field.command_line = omega arith
name_Solid Field.apps = omega arith

parse_trimmed-setting :
    (f : Field) (value : List ℕ) (c : Config)
    → parse_trimmed (name f ++ b'=' ∷ value) c ≡ process (name f) value c
unfolding parse_trimmed split_once
parse_trimmed-setting Field.stack_address value c = refl
parse_trimmed-setting Field.stack_size value c = refl
parse_trimmed-setting Field.memory_offset value c = refl
parse_trimmed-setting Field.path value c = refl
parse_trimmed-setting Field.auto_grow value c = refl
parse_trimmed-setting Field.command_line value c = refl
parse_trimmed-setting Field.apps value c = refl

field_of-name : (f : Field) → field_of (name f) ≡ some f
unfolding field_of
field_of-name Field.stack_address = refl
field_of-name Field.stack_size = refl
field_of-name Field.memory_offset = refl
field_of-name Field.path = refl
field_of-name Field.auto_grow = refl
field_of-name Field.command_line = refl
field_of-name Field.apps = refl

parse_lines-render :
    (settings : Settings) (c : Config)
    → AreSolid settings
    → parse_lines (lines_of (render settings)) c ≡ ok (configured settings c)
unfolding parse_lines process
parse_lines-render [] c solid = unfold lines_of in refl
parse_lines-render ((f, value) ∷ settings) c (solid, others) =
    let line : List ℕ = name f ++ b'=' ∷ value in
    let whole : Solid line =
      Solid-append (name f) (b'=' ∷ value) (name_Solid f) (omega arith, omega arith, solid) in
    rw
      (
        lines_of-line line (render settings) whole,
        trim-Solid line whole,
        parse_trimmed-setting f value c,
        hexadecimal-Solid value solid,
        field_of-name f,
      )
      (parse_lines-render settings _ others ∙ ap ok (configured-set_field f value settings c))

-- A file with a line `key=value` for each of some settings, whose values are printable and without
-- spaces, is parsed without a panic. Each field is as its last setting says, and as in the defaults
-- where it has none: the path and the command line by the text, the size of the stack and how far it
-- grows by the decimal number, the address of the stack and the offset by the hexadecimal number after
-- two characters, 0 where there is no number; programs are loaded unless the decimal number is 0.
pub parse-render :
    (settings : Settings)
    → AreSolid settings
    → parse (render settings) ≡ ok (configured settings default_config)
unfolding parse
parse-render settings solid = parse_lines-render settings default_config solid
