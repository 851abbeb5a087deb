-- ===== src/Io/Uart.antt =====
-- `SerialPort` of src/0x01/pkg/kernel/src/drivers/uart16550.rs. The instructions that read and write a
-- port are a parameter; a loop that waits for the device is on fuel.
use mathlib.Core.List.{append-nil, append_assoc}
use yat_sen_os.Prelude.{
  ℕ, zero, suc, ◌+◌, ◌-◌, ◌/◌, ◌%◌, ◌≤◌, ◌≡◌, refl, sym, ap, ◌∙◌, Bool, true, false, Option, some,
  none, List, [], ◌∷◌, ◌++◌, ◌==◌, if◌then◌else◌, Outcome, ok, endless, ◌>>=◌, Result, okay, error,
  arith, not,
}

abbrev pub port : ℕ
port = 0x3F8

abbrev pub data_port : ℕ
data_port = port

abbrev pub interrupt_enable : ℕ
interrupt_enable = port + 1

abbrev pub fifo_ctrl : ℕ
fifo_ctrl = port + 2

abbrev pub line_ctrl : ℕ
line_ctrl = port + 3

abbrev pub modem_ctrl : ℕ
modem_ctrl = port + 4

abbrev pub line_status : ℕ
line_status = port + 5

-- A device behind the ports.
pub record Ports : Type 1 where
  pub Device : Type 0
  pub write : ℕ → ℕ → Device → Device
  pub read : ℕ → Device → ℕ × Device

-- `status & 0x20 == 0` and `status & 1 != 0`
abbrev pub is_full : ℕ → Bool
is_full status = status / 0x20 % 2 == 0

abbrev pub has_data : ℕ → Bool
has_data status = not (status % 2 == 0)

module _ (io : Ports) where
  -- The writes before the loop-back byte is read.
  unfoldable pub configure : io.Device → io.Device
  configure d =
      let d1 = io.write line_ctrl 0x80 (io.write interrupt_enable 0x00 d) in
      let d2 = io.write interrupt_enable 0x00 (io.write data_port 0x03 d1) in
      let d3 = io.write fifo_ctrl 0xC7 (io.write line_ctrl 0x03 d2) in
      io.write data_port 0xAE (io.write modem_ctrl 0x1E (io.write modem_ctrl 0x0B d3))

  unfoldable pub init : io.Device → Result (Unit {0}) (Unit {0}) × io.Device
  unfolding configure
  init d =
      let (echo, d') = io.read data_port (configure d) in
      if echo == 0xAE
      then (okay tt, io.write interrupt_enable 0x01 (io.write modem_ctrl 0x0F d'))
      else (error tt, d')

  unfoldable pub wait_empty : ℕ → io.Device → Outcome io.Device
  wait_empty zero d = endless
  wait_empty (suc fuel) d =
      let rest = wait_empty fuel (io.read line_status d).1 in
      if is_full (io.read line_status d).0 then rest else ok (io.read line_status d).1

  unfoldable pub send : ℕ → ℕ → io.Device → Outcome io.Device
  unfolding wait_empty
  send fuel byte d = do d1 ← wait_empty fuel d; ok (io.write data_port byte d1)

  unfoldable pub receive : io.Device → Option ℕ × io.Device
  receive d =
      let (status, d') = io.read line_status d in
      let (byte, d'') = io.read data_port d' in
      if has_data status then (some byte, d'') else (none, d')

  unfoldable pub write_str : ℕ → List ℕ → io.Device → Outcome io.Device
  unfolding send
  write_str fuel [] d = ok d
  write_str fuel (byte ∷ bytes) d = do d' ← send fuel byte d; write_str fuel bytes d'

-- What the 16550 does for a sender: it has room after so many readings of its status, and a byte
-- that is written then is sent.
pub record Transmitter (io : Ports) : Type 0 where
  pub sent : io.Device → List ℕ
  pub busy : io.Device → ℕ
  pub status-full :
      (d : io.Device) (n : ℕ) → busy d ≡ suc n → is_full (io.read line_status d).0 ≡ true
  pub status-free : (d : io.Device) → busy d ≡ 0 → is_full (io.read line_status d).0 ≡ false
  pub status-busy : (d : io.Device) → busy (io.read line_status d).1 ≡ busy d - 1
  pub status-sent : (d : io.Device) → sent (io.read line_status d).1 ≡ sent d
  pub data-sent :
      (d : io.Device) (byte : ℕ)
      → busy d ≡ 0
      → sent (io.write data_port byte d) ≡ sent d ++ byte ∷ []

module _ (io : Ports) (line : Transmitter io) where
  wait_empty-returns :
      (fuel : ℕ) (n : ℕ) (d : io.Device)
      → line.busy d ≡ n
      → suc n ≤ fuel
      → (d' : io.Device) × (wait_empty io fuel d ≡ ok d')
        × (line.busy d' ≡ 0)
        × (line.sent d' ≡ line.sent d)
  unfolding wait_empty
  wait_empty-returns zero n d b h = absurd (omega arith)
  wait_empty-returns (suc fuel) zero d b h = (
    (io.read line_status d).1,
    rw (line.status-free d b) refl,
    line.status-busy d ∙ ap (λ m. m - 1) b,
    line.status-sent d,
  )
  wait_empty-returns (suc fuel) (suc n) d b h =
      let (d', e, free, same) =
        wait_empty-returns fuel n (io.read line_status d).1
          (line.status-busy d ∙ ap (λ m. m - 1) b ∙ omega arith) (omega arith) in
      (d', rw (line.status-full d n b) e, free, same ∙ line.status-sent d)

  -- A text is sent byte by byte in its order, where the device always has room within the fuel.
  pub write_str-sent :
      (fuel : ℕ) (bytes : List ℕ) (d : io.Device)
      → ((e : io.Device) → suc (line.busy e) ≤ fuel)
      → (d' : io.Device) × (write_str io fuel bytes d ≡ ok d')
        × (line.sent d' ≡ line.sent d ++ bytes)
  unfolding write_str send
  write_str-sent fuel [] d room = (d, refl, sym (append-nil (line.sent d)))
  write_str-sent fuel (byte ∷ bytes) d room =
      let (d1, e1, free, same) = wait_empty-returns fuel (line.busy d) d refl (room d) in
      let d2 = io.write data_port byte d1 in
      let (d3, e3, all) = write_str-sent fuel bytes d2 room in
      (
        d3,
        rw e1 e3,
        all
            ∙ ap (λ z. z ++ bytes) (line.data-sent d1 byte free ∙ ap (λ z. z ++ byte ∷ []) same)
            ∙ append_assoc (line.sent d) (byte ∷ []) bytes,
      )
