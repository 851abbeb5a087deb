-- ===== src/Apic/XApic.antt =====
-- `XApic` of src/0x01/pkg/kernel/src/interrupt/apic/xapic.rs, by its registers, of 32 bits. A loop
-- that waits for a bit to be cleared waits for ever where it is set.
use yat_sen_os.Prelude.{
  ℕ, ◌+◌, ◌-◌, ◌*◌, ◌/◌, ◌%◌, ◌^◌, ◌<◌, ◌≡◌, refl, ◌==◌, if◌then◌else◌, Outcome, ok, endless, ◌>>=◌,
  arith,
}
use yat_sen_os.Apic.IoApic.{poke}

abbrev pub Registers : Type 0
Registers = ℕ → ℕ

-- `Interrupts::IrqBase`, `Irq::Timer` and `Irq::Spurious` of consts.rs
abbrev pub irq_base : ℕ
irq_base = 0x20

abbrev pub irq_timer : ℕ
irq_timer = 0

abbrev pub irq_spurious : ℕ
irq_spurious = 31

unfoldable pub read : ℕ → Registers → ℕ
read reg r = r reg

-- The read after the write changes nothing.
unfoldable pub write : ℕ → ℕ → Registers → Registers
write reg value r = poke reg value r

-- `x | 1 << k`, `x & !(1 << k)`, and `x & !0xFF | vector`
abbrev pub bit : ℕ → ℕ → ℕ
bit k x = x / 2 ^ k % 2

abbrev pub set_bit : ℕ → ℕ → ℕ
set_bit k x = x + (1 - bit k x) * 2 ^ k

abbrev pub clear_bit : ℕ → ℕ → ℕ
clear_bit k x = x - bit k x * 2 ^ k

abbrev pub with_vector : ℕ → ℕ → ℕ
with_vector vector x = x / 2 ^ 8 * 2 ^ 8 + vector

-- `while self.read(0x300) & DS != 0 {}`
unfoldable pub wait_delivered : Registers → Outcome Registers
wait_delivered r = if bit 12 (r 0x300) == 0 then ok r else endless

abbrev pub bcast_init_tmlv : ℕ
bcast_init_tmlv = 2 ^ 19 + 5 * 2 ^ 8 + 2 ^ 15

-- The writes of `cpu_init` up to the inter-processor command.
unfoldable pub configure : Registers → Registers
unfolding read write
configure r0 =
    let r1 = write 0xF0 (with_vector (irq_base + irq_spurious) (set_bit 8 (read 0xF0 r0))) r0 in
    let r2 = write 0x380 0x20000 (write 0x3E0 0b1011 r1) in
    let timer = clear_bit 16 (with_vector (irq_base + irq_timer) (read 0x320 r2)) in
    let r3 = write 0x320 (set_bit 17 timer) r2 in
    let r4 = write 0x340 (2 ^ 16) (write 0x360 (2 ^ 16) (write 0x350 (2 ^ 16) r3)) in
    let r5 = write 0x370 (with_vector (irq_base + irq_timer) (read 0x370 r4)) r4 in
    let r6 = write 0x0B0 0 (write 0x280 0 (write 0x280 0 r5)) in
    write 0x300 bcast_init_tmlv (write 0x310 0 r6)

unfoldable pub cpu_init : Registers → Outcome Registers
unfolding configure wait_delivered
cpu_init r = do r' ← wait_delivered (configure r); ok (write 0x080 0 r')

unfoldable pub id : Registers → ℕ
unfolding read
id r = read 0x20 r / 2 ^ 24

unfoldable pub version : Registers → ℕ
unfolding read
version r = read 0x30 r

unfoldable pub icr : Registers → ℕ
unfolding read
icr r = read 0x310 r * 2 ^ 32 + read 0x300 r

unfoldable pub set_icr : ℕ → Registers → Outcome Registers
unfolding write wait_delivered
set_icr value r = do
  r1 ← wait_delivered r
  wait_delivered (write 0x300 (value % 2 ^ 32) (write 0x310 (value / 2 ^ 32) r1))

unfoldable pub eoi : Registers → Registers
unfolding write
eoi r = write 0xB0 0 r

-- What an entry of the local vector table says.
abbrev pub vector : ℕ → ℕ
vector x = x % 2 ^ 8

abbrev pub IsMasked : ℕ → Type 0
IsMasked x = bit 16 x ≡ 1

pub record IsSetUp (r : Registers) : Type 0 where
  pub timer_count : r 0x380 ≡ 0x20000
  pub timer_divide : r 0x3E0 ≡ 0b1011
  pub timer_vector : vector (r 0x320) ≡ 32
  pub timer_open : bit 16 (r 0x320) ≡ 0
  pub timer_periodic : bit 17 (r 0x320) ≡ 1
  pub spurious_vector : vector (r 0xF0) ≡ 63
  pub is_enabled : bit 8 (r 0xF0) ≡ 1
  pub lint0_masked : IsMasked (r 0x350)
  pub lint1_masked : IsMasked (r 0x360)
  pub pcint_masked : IsMasked (r 0x340)
  pub error_vector : vector (r 0x370) ≡ 32
  pub no_priority : r 0x080 ≡ 0

-- In a controller whose registers keep what is written to them, whatever they held, `cpu_init`
-- leaves: the timer with the initial count 0x20000, a divider of 1, periodic, not masked, with
-- vector 32; the controller on, with the spurious vector 63; the lines LINT0, LINT1 and PCINT
-- masked; the vector of errors 32; and no interrupt held back by its priority.
pub cpu_init-IsSetUp : (r : Registers) → (r' : Registers) × (cpu_init r ≡ ok r') × IsSetUp r'
unfolding cpu_init
cpu_init-IsSetUp r = (
  write 0x080 0 (configure r),
  refl,
  record {
    timer_count = omega arith;
    timer_divide = omega arith;
    timer_vector = omega arith;
    timer_open = omega arith;
    timer_periodic = omega arith;
    spurious_vector = omega arith;
    is_enabled = omega arith;
    lint0_masked = omega arith;
    lint1_masked = omega arith;
    pcint_masked = omega arith;
    error_vector = omega arith;
    no_priority = omega arith;
  },
)

-- A command of 64 bits whose delivery bit is clear is read back after it was given, where the last
-- command has been delivered.
pub icr-set_icr :
    (value : ℕ) (r : Registers)
    → value < 2 ^ 64
    → bit 12 value ≡ 0
    → bit 12 (r 0x300) ≡ 0
    → (r' : Registers) × (set_icr value r ≡ ok r') × (icr r' ≡ value)
unfolding set_icr icr
icr-set_icr value r fits clear delivered =
    let value' : bit 12 (value % 2 ^ 32) ≡ 0 = omega arith in
    (
      write 0x300 (value % 2 ^ 32) (write 0x310 (value / 2 ^ 32) r),
      rw (delivered, value') refl,
      omega arith,
    )
