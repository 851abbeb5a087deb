-- ===== src/Tests/Vectors.antt =====
-- The interrupt descriptor table, kept as a function.
use yat_sen_os.Prelude.{
  ℕ, ◌+◌, ◌*◌, ◌≤◌, ◌≡◌, ◌≢◌, refl, Option, none, ◌==◌, if◌then◌else◌, ◌⊎◌, ◌↔◌, inl, inr, arith,
  dec_lt,
}
use yat_sen_os.Apic.XApic.{vector, cpu_init, configure, write, wait_delivered}
use yat_sen_os.Tables.{
  Entry, with_setting, DescriptorTables, register_idt, idt, tss, ist_size, syscall_vector,
}
use yat_sen_os.Tables.Guarded.{IsGate, idt-IsGate_iff, spurious-unset, stacks-apart}

abbrev kept : DescriptorTables
kept = record {
  Table = ℕ → Option Entry;
  new = λ n. none;
  set = λ m setting t n. if n == m then with_setting setting (t m) else t n;
  entry = λ t n. t n;
  entry-new = λ n. refl;
  entry-set = λ m setting t n. refl;
}

idt-IsGate_iff_example : IsGate (kept.entry (idt kept) 0x80) ↔ (0x80 ≡ syscall_vector)
idt-IsGate_iff_example = idt-IsGate_iff kept 0x80 (omega arith)

spurious-unset_example : idt kept (vector (write 0x080 0 (configure (λ reg. 0)) 0xF0)) ≡ none
spurious-unset_example =
    spurious-unset kept (λ reg. 0) (write 0x080 0 (configure (λ reg. 0)))
      (unfold cpu_init wait_delivered in refl)

abbrev spaced : ℕ → ℕ
spaced k = 0x10000 + k * ist_size

spaced-apart :
    (k l : ℕ) → k ≢ l → (spaced k + ist_size ≤ spaced l) ⊎ (spaced l + ist_size ≤ spaced k)
spaced-apart k l ne = elim (dec_lt k l) [ yes h ↦ inl (omega arith) | no h ↦ inr (omega arith) ]

stacks-apart_example :
    ((tss spaced).interrupt_stack_table 0 + ist_size ≤ (tss spaced).interrupt_stack_table 2)
    ⊎ ((tss spaced).interrupt_stack_table 2 + ist_size ≤ (tss spaced).interrupt_stack_table 0)
stacks-apart_example =
    stacks-apart kept spaced 8 32 0 2 spaced-apart (omega arith) (omega arith)
      (λ e. absurd (omega arith)) (unfold idt register_idt in (_, refl, refl))
      (unfold idt register_idt in (_, refl, refl))
