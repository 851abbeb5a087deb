-- ===== src/Tables.antt =====
-- The interrupt descriptor table, of src/0x01/pkg/kernel/src/interrupt, and the task state segment, of
-- src/0x01/pkg/kernel/src/memory/gdt.rs. The table itself is the crate `x86_64`'s.
pub mod Guarded
use yat_sen_os.Prelude.{
  ℕ, ◌+◌, ◌%◌, ◌^◌, ◌≡◌, Option, none, some, List, [], ◌∷◌, ◌==◌, if◌then◌else◌,
}
use yat_sen_os.Apic.IoApic.{poke}

-- The functions that are set as handlers.
pub data Handler : Type 0 where
  divide_error_handler double_fault_handler page_fault_handler : Handler
  general_protection_fault_handler alignment_check_handler breakpoint_handler : Handler
  bound_range_exceeded_handler cp_protection_exception_handler debug_handler : Handler
  hv_injection_exception_handler invalid_tss_handler invalid_opcode : Handler
  machine_check_handler non_maskable_interrupt overflow_handler : Handler
  security_exception_handler segment_not_present_handler simd_floating_point_handler : Handler
  stack_segment_fault virtualization_handler x87_floating_point_handler : Handler
  device_not_available_handler vmm_commumication_exception_handler : Handler
  clock_handler serial_handler syscall_handler : Handler

-- An entry that is present: its handler, the stack that is switched to, and the ring that may raise
-- it by an instruction.
pub record Entry : Type 0 where
  pub handler : Handler
  pub stack_index : Option ℕ
  pub privilege_level : ℕ

-- One call on the entry of a vector.
pub data Setting : Type 0 where
  set_handler_fn : Handler → Setting
  set_stack_index set_privilege_level : ℕ → Setting

-- What a call makes of an entry: a handler makes it present, and it keeps the options that it has.
abbrev pub handled : Handler → Option Entry → Entry
handled h none = record { handler = h; stack_index = none; privilege_level = 0 }
handled h (some e) = record e { handler = h }

abbrev pub with_setting : Setting → Option Entry → Option Entry
with_setting (set_handler_fn h) e = some (handled h e)
with_setting (set_stack_index i) none = none
with_setting (set_stack_index i) (some e) = some (record e { stack_index = some i })
with_setting (set_privilege_level ring) none = none
with_setting (set_privilege_level ring) (some e) = some (record e { privilege_level = ring })

-- `InterruptDescriptorTable`: a new one has no entry, and a call changes one entry.
pub record DescriptorTables : Type 1 where
  pub Table : Type 0
  pub new : Table
  pub set : ℕ → Setting → Table → Table
  pub entry : Table → ℕ → Option Entry
  pub entry-new : (n : ℕ) → entry new n ≡ none
  pub entry-set :
      (m : ℕ) (setting : Setting) (t : Table) (n : ℕ)
      → entry (set m setting t) n ≡ (if n == m then with_setting setting (entry t m) else entry t n)

abbrev pub double_fault_ist_index : ℕ
double_fault_ist_index = 0

abbrev pub page_fault_ist_index : ℕ
page_fault_ist_index = 1

abbrev pub clock_ist_index : ℕ
clock_ist_index = 2

abbrev pub syscall_ist_index : ℕ
syscall_ist_index = 3

-- `Interrupts` and `Irq` of consts.rs
abbrev pub irq_base : ℕ
irq_base = 0x20

abbrev pub syscall_vector : ℕ
syscall_vector = 0x80

abbrev pub irq_timer : ℕ
irq_timer = 0

abbrev pub irq_serial0 : ℕ
irq_serial0 = 4

-- The calls of a `register_idt`, in order, each with the vector of the entry: for a field of the
-- table that is the number of the exception.
abbrev pub Calls : Type 0
Calls = List (ℕ × Setting)

abbrev pub exceptions : Calls
exceptions =
    (0, set_handler_fn Handler.divide_error_handler)
    ∷ (8, set_handler_fn Handler.double_fault_handler)
    ∷ (8, set_stack_index double_fault_ist_index)
    ∷ (14, set_handler_fn Handler.page_fault_handler)
    ∷ (14, set_stack_index page_fault_ist_index)
    ∷ (13, set_handler_fn Handler.general_protection_fault_handler)
    ∷ (17, set_handler_fn Handler.alignment_check_handler)
    ∷ (3, set_handler_fn Handler.breakpoint_handler)
    ∷ (5, set_handler_fn Handler.bound_range_exceeded_handler)
    ∷ (21, set_handler_fn Handler.cp_protection_exception_handler)
    ∷ (1, set_handler_fn Handler.debug_handler)
    ∷ (13, set_handler_fn Handler.general_protection_fault_handler)
    ∷ (28, set_handler_fn Handler.hv_injection_exception_handler)
    ∷ (10, set_handler_fn Handler.invalid_tss_handler)
    ∷ (6, set_handler_fn Handler.invalid_opcode)
    ∷ (18, set_handler_fn Handler.machine_check_handler)
    ∷ (2, set_handler_fn Handler.non_maskable_interrupt)
    ∷ (4, set_handler_fn Handler.overflow_handler)
    ∷ (30, set_handler_fn Handler.security_exception_handler)
    ∷ (11, set_handler_fn Handler.segment_not_present_handler)
    ∷ (19, set_handler_fn Handler.simd_floating_point_handler)
    ∷ (12, set_handler_fn Handler.stack_segment_fault)
    ∷ (20, set_handler_fn Handler.virtualization_handler)
    ∷ (16, set_handler_fn Handler.x87_floating_point_handler)
    ∷ (7, set_handler_fn Handler.device_not_available_handler)
    ∷ (29, set_handler_fn Handler.vmm_commumication_exception_handler)
    ∷ []

abbrev pub clock : Calls
clock =
    (irq_base + irq_timer, set_handler_fn Handler.clock_handler)
    ∷ (irq_base + irq_timer, set_stack_index clock_ist_index)
    ∷ []

abbrev pub serial : Calls
serial = (irq_base + irq_serial0, set_handler_fn Handler.serial_handler) ∷ []

abbrev pub syscall : Calls
syscall =
    (syscall_vector, set_handler_fn Handler.syscall_handler)
    ∷ (syscall_vector, set_stack_index syscall_ist_index)
    ∷ (syscall_vector, set_privilege_level 3)
    ∷ []

module _ (lib : DescriptorTables) where
  unfoldable pub register_idt : Calls → lib.Table → lib.Table
  register_idt [] t = t
  register_idt ((n, setting) ∷ calls) t = register_idt calls (lib.set n setting t)

  unfoldable pub idt : lib.Table
  unfolding register_idt
  idt =
      register_idt syscall
        (register_idt serial (register_idt clock (register_idt exceptions lib.new)))

-- The stacks of the task state segment, by their ends.
pub record TaskStateSegment : Type 0 where
  pub privilege_stack_table : ℕ → ℕ
  pub interrupt_stack_table : ℕ → ℕ

-- `IST_SIZES`, which are all the same
abbrev pub ist_size : ℕ
ist_size = 0x1000

-- `buffer k` is the address of the static buffer of the stack with the size `IST_SIZES[k]`. No end
-- of a buffer leaves the addresses.
unfoldable pub tss : (ℕ → ℕ) → TaskStateSegment
tss buffer = record {
  privilege_stack_table = poke 0 (buffer 0 + ist_size) (λ i. 0);
  interrupt_stack_table = poke syscall_ist_index (buffer 4 + ist_size) (
      poke clock_ist_index (buffer 3 + ist_size) (
        poke page_fault_ist_index (buffer 2 + ist_size)
          (poke double_fault_ist_index (buffer 1 + ist_size) (λ i. 0))));
}
