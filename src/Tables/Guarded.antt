-- ===== src/Tables/Guarded.antt =====
-- What the interrupt descriptor table lets a process do, and which stacks the handlers of
-- src/0x01/pkg/kernel/src/interrupt run on.
use yat_sen_os.Prelude.{
  ℕ, zero, suc, ◌+◌, ◌≤◌, ◌<◌, ◌≡◌, ◌≢◌, refl, sym, ap, ◌∙◌, Bool, true, ◌&&◌, ◌||◌, not, Option,
  none, some, [], ◌∷◌, ◌==◌, if◌then◌else◌, ◌⊎◌, inl, inr, ℕ_discrete, arith, ok, ok_inj, ◌↔◌, ltb,
  ltb→lt, and_left, and_right,
}
use yat_sen_os.Apic.XApic.{Registers, vector, cpu_init, cpu_init-IsSetUp}
use yat_sen_os.Tables.{
  Entry, with_setting, DescriptorTables, Calls, exceptions, clock, serial, syscall, syscall_vector,
  register_idt, idt, tss, ist_size,
}

-- The entries that the calls make, from those before.
abbrev entries : Calls → (ℕ → Option Entry) → ℕ → Option Entry
entries [] old = old
entries ((m, setting) ∷ calls) old =
    entries calls (λ n. if n == m then with_setting setting (old m) else old n)

entries-cong :
    (calls : Calls) (f g : ℕ → Option Entry)
    → ((n : ℕ) → f n ≡ g n)
    → (n : ℕ) → entries calls f n ≡ entries calls g n
entries-cong [] f g same = same
entries-cong ((m, setting) ∷ calls) f g same =
    entries-cong calls _ _ (λ n. rw (same m, same n) refl)

-- All the calls, on a new table.
abbrev all_entries : ℕ → Option Entry
all_entries n = entries syscall (entries serial (entries clock (entries exceptions (λ m. none)))) n

module _ (lib : DescriptorTables) where
  register_idt-entry :
      (calls : Calls) (t : lib.Table) (n : ℕ)
      → lib.entry (register_idt lib calls t) n ≡ entries calls (lib.entry t) n
  unfolding register_idt
  register_idt-entry [] t n = refl
  register_idt-entry ((m, setting) ∷ calls) t n =
      register_idt-entry calls (lib.set m setting t) n
      ∙ entries-cong calls _ _ (lib.entry-set m setting t) n

  idt-entry : (n : ℕ) → lib.entry (idt lib) n ≡ all_entries n
  unfolding idt
  idt-entry n =
      register_idt-entry syscall _ n
      ∙ entries-cong syscall _ _
          (λ n.
            register_idt-entry serial _ n
            ∙ entries-cong serial _ _
                (λ n.
                  register_idt-entry clock _ n
                  ∙ entries-cong clock _ _
                      (λ n.
                        register_idt-entry exceptions _ n
                        ∙ entries-cong exceptions _ _ lib.entry-new n)
                      n)
                n)
          n

-- A test of every vector.
all_below : ℕ → (ℕ → Bool) → Bool
all_below zero p = true
all_below (suc n) p = p n && all_below n p

all_below-holds : (n : ℕ) (p : ℕ → Bool) (m : ℕ) → all_below n p ≡ true → m < n → p m ≡ true
unfolding all_below
all_below-holds zero p m e h = absurd (omega arith)
all_below-holds (suc n) p m e h = elim (ℕ_discrete m n) [
  | yes same ↦ ap p same ∙ and_left (p n) (all_below n p) e
  | no ne ↦ all_below-holds n p m (and_right (p n) (all_below n p) e) (omega arith)
]

abbrev gate_test : ℕ → Option Entry → Bool
gate_test n none = true
gate_test n (some e) = not (e.privilege_level == 3) || (n == syscall_vector)

every_gate : all_below 256 (λ n. gate_test n (all_entries n)) ≡ true
unfolding all_below
every_gate = refl

-- The vector whose handler has a stack of its own.
abbrev owner : ℕ → ℕ
owner i = if i == 0 then 8 else if i == 1 then 14 else if i == 2 then 32 else syscall_vector

abbrev stack_test : ℕ → Option Entry → Bool
stack_test n none = true
stack_test n (some e) = elim e.stack_index [ none ↦ true | some i ↦ ltb i 4 && (n == owner i) ]

every_stack : all_below 256 (λ n. stack_test n (all_entries n)) ≡ true
unfolding all_below
every_stack = refl

abbrev pub HasStack : Option Entry → ℕ → Type 0
HasStack entry i = (e : Entry) × (entry ≡ some e) × (e.stack_index ≡ some i)

abbrev pub IsGate : Option Entry → Type 0
IsGate entry = (e : Entry) × (entry ≡ some e) × (e.privilege_level ≡ 3)

gate_sound :
    (n : ℕ) (e : Entry) → gate_test n (some e) ≡ true → e.privilege_level ≡ 3 → n ≡ syscall_vector
gate_sound n e test ring = ground (arith, test, ring)

stack_sound :
    (n i : ℕ) (e : Entry)
    → stack_test n (some e) ≡ true
    → e.stack_index ≡ some i
    → (i < 4) × (n ≡ owner i)
stack_sound n i e test index =
    let test' : (ltb i 4 && (n == owner i)) ≡ true = rw index at test in
    (
      ltb→lt i 4 (and_left (ltb i 4) (n == owner i) test'),
      ground (arith, and_right (ltb i 4) (n == owner i) test'),
    )

module _ (lib : DescriptorTables) where
  -- Vector 0x80 has an entry of privilege level 3, and no other vector has: it is the one vector
  -- that a process in ring 3 may name in an instruction `int`.
  pub idt-IsGate_iff : (n : ℕ) → n < 256 → IsGate (lib.entry (idt lib) n) ↔ (n ≡ syscall_vector)
  idt-IsGate_iff n small = (
    λ (e, at, ring).
        let test = all_below-holds 256 (λ m. gate_test m (all_entries m)) n every_gate small in
        let at' : all_entries n ≡ some e = sym (idt-entry lib n) ∙ at in
        gate_sound n e (sym (ap (gate_test n) at') ∙ test) ring,
    λ e. (_, idt-entry lib n ∙ ap all_entries e, refl),
  )

  stack-owner : (n i : ℕ) → n < 256 → HasStack (lib.entry (idt lib) n) i → (i < 4) × (n ≡ owner i)
  stack-owner n i small (e, at, index) =
      let test = all_below-holds 256 (λ m. stack_test m (all_entries m)) n every_stack small in
      let at' : all_entries n ≡ some e = sym (idt-entry lib n) ∙ at in
      stack_sound n i e (sym (ap (stack_test n) at') ∙ test) index

  -- The spurious vector that `cpu_init` sets has no entry in the table.
  pub spurious-unset :
      (r r' : Registers) → cpu_init r ≡ ok r' → lib.entry (idt lib) (vector (r' 0xF0)) ≡ none
  spurious-unset r r' e =
      let (r'', e', up) = cpu_init-IsSetUp r in
      let same : r'' ≡ r' = ok_inj (sym e' ∙ e) in
      ap (λ q. lib.entry (idt lib) (vector (q 0xF0))) (sym same)
      ∙ ap (lib.entry (idt lib)) up.spurious_vector
      ∙ idt-entry lib 63

stack_of :
    (buffer : ℕ → ℕ) (i : ℕ)
    → i < 4
    → (tss buffer).interrupt_stack_table i ≡ buffer (i + 1) + ist_size
unfolding tss
stack_of buffer zero h = refl
stack_of buffer (suc zero) h = refl
stack_of buffer (suc (suc zero)) h = refl
stack_of buffer (suc (suc (suc zero))) h = refl
stack_of buffer (suc (suc (suc (suc i)))) h = absurd (omega arith)

-- Where the static buffers do not overlap, two vectors whose handlers have stacks of their own have
-- stacks that do not overlap.
pub stacks-apart :
    (lib : DescriptorTables) (buffer : ℕ → ℕ) (m n i j : ℕ)
    → ((k l : ℕ) → k ≢ l → (buffer k + ist_size ≤ buffer l) ⊎ (buffer l + ist_size ≤ buffer k))
    → m < 256
    → n < 256
    → m ≢ n
    → HasStack (lib.entry (idt lib) m) i
    → HasStack (lib.entry (idt lib) n) j
    → ((tss buffer).interrupt_stack_table i + ist_size ≤ (tss buffer).interrupt_stack_table j)
      ⊎ ((tss buffer).interrupt_stack_table j + ist_size ≤ (tss buffer).interrupt_stack_table i)
stacks-apart lib buffer m n i j apart small_m small_n ne at at' =
    let (low_i, own_i) = stack-owner lib m i small_m at in
    let (low_j, own_j) = stack-owner lib n j small_n at' in
    let ei = stack_of buffer i low_i in
    let ej = stack_of buffer j low_j in
    let other : i + 1 ≢ j + 1 =
      λ e. let same : i ≡ j = omega arith in ne (own_i ∙ ap owner same ∙ sym own_j) in
    elim (apart (i + 1) (j + 1) other) [ inl le ↦ inl (omega arith) | inr le ↦ inr (omega arith) ]
