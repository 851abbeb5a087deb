-- ===== src/Apic/IoApic.antt =====
-- `IoApic` of src/0x01/pkg/kernel/src/interrupt/apic/ioapic.rs. A register's number is a `u8`.
-- `a | b` is a sum where the parts share no bit.
use yat_sen_os.Prelude.{
  ℕ, zero, suc, ◌+◌, ◌*◌, ◌/◌, ◌%◌, ◌^◌, ◌<◌, ◌≡◌, ◌⊎◌, inl, inr, refl, ◌∙◌, Bool, true, false, leb,
  ◌==◌, if◌then◌else◌, arith,
}

pub record IoApic : Type 0 where
  -- the register that is selected, and the values of the registers
  pub selected : ℕ
  pub registers : ℕ → ℕ

-- `DISABLED` and `NONE` of `RedirectionEntry`
abbrev pub disabled : ℕ
disabled = 0x10000

abbrev pub none_set : ℕ
none_set = 0

abbrev pub poke : ℕ → ℕ → (ℕ → ℕ) → ℕ → ℕ
poke reg value regs r = if r == reg then value else regs r

unfoldable pub read : ℕ → IoApic → ℕ × IoApic
read reg a = (a.registers reg, record a { selected = reg })

unfoldable pub write : ℕ → ℕ → IoApic → IoApic
write reg value a = record { selected = reg; registers = poke reg value a.registers }

unfoldable pub write_irq : ℕ → ℕ → ℕ → IoApic → IoApic
unfolding write
write_irq irq flags dest a =
    let low = write ((0x10 + 2 * irq) % 2 ^ 8) ((32 + irq) % 2 ^ 8 + flags) a in
    write ((0x10 + 2 * irq + 1) % 2 ^ 8) (dest * 2 ^ 24) low

unfoldable pub enable : ℕ → ℕ → IoApic → IoApic
unfolding write_irq
enable irq cpuid a = write_irq irq none_set cpuid a

unfoldable pub disable : ℕ → ℕ → IoApic → IoApic
unfolding write_irq
disable irq cpuid a = write_irq irq disabled cpuid a

-- `get_bits(16..24)`, `get_bits(0..8)` and `get_bits(24..28)`
unfoldable pub maxintr : IoApic → ℕ × IoApic
unfolding read
maxintr a = let (value, a') = read 0x01 a in (value / 2 ^ 16 % 2 ^ 8, a')

unfoldable pub version : IoApic → ℕ × IoApic
unfolding read
version a = let (value, a') = read 0x01 a in (value % 2 ^ 8, a')

unfoldable pub id : IoApic → ℕ × IoApic
unfolding read
id a = let (value, a') = read 0x00 a in (value / 2 ^ 24 % 2 ^ 4, a')

-- The loop over `0..=max`, with the entries up to `n` done first.
unfoldable pub disable_up_to : ℕ → IoApic → IoApic
unfolding write_irq
disable_up_to zero a = write_irq 0 disabled 0 a
disable_up_to (suc n) a = write_irq (suc n) disabled 0 (disable_up_to n a)

unfoldable pub disable_all : IoApic → IoApic
unfolding maxintr disable_up_to
disable_all a = let (max, a') = maxintr a in disable_up_to max a'

-- What the hardware makes of the two registers of an interrupt.
pub record Entry : Type 0 where
  pub vector : ℕ
  pub masked : Bool
  pub dest : ℕ

unfoldable pub entry : ℕ → IoApic → Entry
entry irq a = record {
  vector = a.registers (0x10 + 2 * irq) % 2 ^ 8;
  masked = a.registers (0x10 + 2 * irq) / 2 ^ 16 % 2 == 1;
  dest = a.registers (0x10 + 2 * irq + 1) / 2 ^ 24;
}

write_irq-entry :
    (irq flags dest j : ℕ) (a : IoApic)
    → irq < 120
    → j < 120
    → dest < 2 ^ 8
    → (flags ≡ none_set) ⊎ (flags ≡ disabled)
    → entry j (write_irq irq flags dest a) ≡ (
        if irq == j
        then record { vector = 32 + irq; masked = flags == disabled; dest = dest }
        else entry j a)
unfolding entry write_irq write
write_irq-entry irq flags dest j a small small' low which = ground arith

-- After an interrupt is enabled for a processor, its entry has the vector 32 + irq, is open and goes
-- to that processor; the entries of all others are as they were.
pub enable-entry :
    (irq cpuid j : ℕ) (a : IoApic)
    → irq < 120
    → j < 120
    → cpuid < 2 ^ 8
    → entry j (enable irq cpuid a)
      ≡ (if irq == j then record { vector = 32 + irq; masked = false; dest = cpuid } else entry j a)
unfolding enable
enable-entry irq cpuid j a small small' low =
    write_irq-entry irq none_set cpuid j a small small' low (inl refl)

disable_up_to-entry :
    (n j : ℕ) (a : IoApic)
    → n < 120
    → j < 120
    → entry j (disable_up_to n a)
      ≡ (if leb j n then record { vector = 32 + j; masked = true; dest = 0 } else entry j a)
unfolding disable_up_to
disable_up_to-entry zero j a small small' =
    ground (arith, write_irq-entry 0 disabled 0 j a (omega arith) small' (omega arith) (inr refl))
disable_up_to-entry (suc n) j a small small' = ground (
  arith,
  write_irq-entry (suc n) disabled 0 j (disable_up_to n a) small small' (omega arith) (inr refl),
  disable_up_to-entry n j a (omega arith) small',
)

-- After all interrupts are disabled, every entry up to the last one that the controller has is
-- masked, with the vector 32 + irq, and goes to processor 0; the others are as they were.
pub disable_all-entry :
    (j : ℕ) (a : IoApic)
    → (maxintr a).0 < 120
    → j < 120
    → entry j (disable_all a) ≡ (
        if leb j (maxintr a).0
        then record { vector = 32 + j; masked = true; dest = 0 }
        else entry j a)
unfolding disable_all
disable_all-entry j a small small' =
    disable_up_to-entry (maxintr a).0 j (maxintr a).1 small small' ∙ unfold entry in refl
