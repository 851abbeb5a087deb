-- ===== src/Tests/Devices.antt =====
-- The serial port, the interrupt controllers and the configuration of the boot loader.
use yat_sen_os.Io.Uart.{Ports, Transmitter, data_port, write_str, write_str-sent}
use yat_sen_os.Prelude.{
  ℕ, suc, Bool, ◌-◌, ◌≤◌, ◌<◌, ◌≡◌, refl, true, false, List, [], ◌∷◌, ◌++◌, map, take, drop, length,
  ok, leb, ◌==◌, if◌then◌else◌, inl, arith,
}
use yat_sen_os.Io.Input.{unicode}
use yat_sen_os.Io.Resources
use yat_sen_os.Io.Resources.{encode_utf8}
use yat_sen_os.Io.Serial.{receive}
use yat_sen_os.Io.Serial.Typed.{encode, receive-encode, read-receive, receive-split}
use yat_sen_os.Text.{from_str, from_str_radix, parse_digits, digit_of, append_digit}
use yat_sen_os.Boot.Config.{
  default_config, parse, trim, trim_start, trim_end, parse_trimmed, split_once, process,
  hexadecimal, after_two, Field, name, field_of, set_field,
}
use yat_sen_os.Boot.Settings.{Settings, render, configured, parse-render}
use yat_sen_os.Apic.IoApic.{
  IoApic, entry, enable, disable_all, maxintr, enable-entry, disable_all-entry,
}
use yat_sen_os.Apic.XApic.{
  Registers, cpu_init, IsSetUp, cpu_init-IsSetUp, set_icr, icr, icr-set_icr,
}

-- "h" and "é", and a character of three bytes.
abbrev text : List ℕ
text = b'h' ∷ 0xE9 ∷ 0x4F60 ∷ []

receive-encode_example : receive (encode text) [] ≡ map unicode text
receive-encode_example =
    receive-encode text [] (inl (omega arith), (inl (omega arith), (inl (omega arith), tt)))
      (omega arith)

read-receive_run :
    Resources.read 0 256 (receive (encode text) []) Resources.default
    ≡ (length (encode_utf8 b'h'), encode_utf8 b'h', map unicode (0xE9 ∷ 0x4F60 ∷ []))
read-receive_run =
    read-receive b'h' (0xE9 ∷ 0x4F60 ∷ []) 256
      (inl (omega arith), (inl (omega arith), (inl (omega arith), tt))) (omega arith) (omega arith)

receive-split_example :
    receive (drop 1 (encode_utf8 0xE9)) (receive (take 1 (encode_utf8 0xE9)) []) ≡ []
receive-split_example = receive-split 0xE9 [] (omega arith) (omega arith)

-- A controller of 24 interrupts.
abbrev controller : IoApic
controller = record { selected = 0; registers = λ r. if r == 1 then 0x170011 else 0 }

enable-entry_run :
    entry 4 (enable 4 0 controller) ≡ record { vector = 36; masked = false; dest = 0 }
enable-entry_run = enable-entry 4 0 4 controller (omega arith) (omega arith) (omega arith)

few : (maxintr controller).0 < 120
unfolding maxintr
few = omega arith

disable_all-entry_run : entry 9 (disable_all controller) ≡ (
    if leb 9 (maxintr controller).0
    then record { vector = 41; masked = true; dest = 0 }
    else entry 9 controller)
disable_all-entry_run = disable_all-entry 9 controller few (omega arith)

abbrev fresh : Registers
fresh = λ r. if r == 0xF0 then 0xFF else 0x10000

cpu_init-IsSetUp_example : (r' : Registers) × (cpu_init fresh ≡ ok r') × IsSetUp r'
cpu_init-IsSetUp_example = cpu_init-IsSetUp fresh

icr-set_icr_run :
    (r' : Registers) × (set_icr 0x0300_0000_0000_0500 fresh ≡ ok r')
    × (icr r' ≡ 0x0300_0000_0000_0500)
icr-set_icr_run = icr-set_icr 0x0300_0000_0000_0500 fresh (omega arith) (omega arith) (omega arith)

-- The settings of boot.conf, and one with spaces around the equals sign, which sets nothing.
abbrev settings : Settings
settings =
    (Field.stack_size, b'8' ∷ []) ∷ (Field.memory_offset, b'0' ∷ b'x' ∷ b'F' ∷ b'F' ∷ []) ∷ []

parse-render_example : parse (render settings) ≡ ok (configured settings default_config)
parse-render_example = parse-render settings (
  (omega arith, omega arith, tt),
  (
    (
      omega arith,
      omega arith,
      (omega arith, omega arith, (omega arith, omega arith, (omega arith, omega arith, tt))),
    ),
    tt,
  ),
)

set_both :
    parse (render settings)
    ≡ ok (record default_config { kernel_stack_size = 8; physical_memory_offset = 0xFF })
unfolding parse trim trim_start trim_end parse_trimmed split_once process hexadecimal after_two
    field_of set_field default_config from_str from_str_radix parse_digits digit_of append_digit
set_both = refl

spaces_ignored :
    parse (name Field.apps ++ 0x20 ∷ b'=' ∷ 0x20 ∷ b'0' ∷ 0x0A ∷ []) ≡ ok default_config
unfolding parse trim trim_start trim_end parse_trimmed split_once process hexadecimal after_two
    field_of set_field default_config from_str from_str_radix parse_digits digit_of append_digit
spaces_ignored = refl

-- A line that needs one reading of its status after each byte.
abbrev line_ports : Ports
line_ports = record {
  Device = Bool × List ℕ;
  write = λ port value d. if port == data_port then (true, d.1 ++ value ∷ []) else d;
  read = λ port d. (if d.0 then 0 else 0x20, (false, d.1));
}

abbrev line_busy : Bool → ℕ
line_busy true = 1
line_busy false = 0

line_busy_free : (b : Bool) → line_busy b ≡ 0 → b ≡ false
line_busy_free true e = absurd (omega arith)
line_busy_free false e = refl

line_busy_held : (b : Bool) (n : ℕ) → line_busy b ≡ suc n → b ≡ true
line_busy_held true n e = refl
line_busy_held false n e = absurd (omega arith)

line_busy_le : (b : Bool) → suc (line_busy b) ≤ 2
line_busy_le true = omega arith
line_busy_le false = omega arith

line_busy_next : (b : Bool) → 0 ≡ line_busy b - 1
line_busy_next true = refl
line_busy_next false = refl

abbrev line_transmitter : Transmitter line_ports
line_transmitter = record {
  sent = λ d. d.1;
  busy = λ d. line_busy d.0;
  status-full = λ d n e. rw (line_busy_held d.0 n e) refl;
  status-free = λ d e. rw (line_busy_free d.0 e) refl;
  status-busy = λ d. line_busy_next d.0;
  status-sent = λ d. refl;
  data-sent = λ d byte e. refl;
}

write_str-sent_example :
    (d : Bool × List ℕ) × (write_str line_ports 2 (0x4F ∷ 0x4B ∷ []) (true, []) ≡ ok d)
    × (d.1 ≡ 0x4F ∷ 0x4B ∷ [])
write_str-sent_example =
    write_str-sent line_ports line_transmitter 2 (0x4F ∷ 0x4B ∷ []) (true, [])
      (λ e. line_busy_le e.0)
