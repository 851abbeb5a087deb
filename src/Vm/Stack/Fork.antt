-- ===== src/Vm/Stack/Fork.antt =====
-- The stack of a forked process.
use yat_sen_os.Prelude.{ℕ, ◌+◌, ◌-◌, ◌*◌, ◌≤◌, ◌<◌, ◌≡◌, ◌⊎◌, true, some, ok, error, Outcome, panic}
use yat_sen_os.X86.{X86, MapToError, Mapping, containing_address}
use yat_sen_os.Elf.{Space, range_flags, within, map_range}
use yat_sen_os.Elf.Mapped.{at_page, Fresh}
use yat_sen_os.Vm.Stack.{Stack, stack_max_size}

module _ (x : X86) where
  -- Whatever was mapped is mapped as it was.
  abbrev pub Keeps : Space x → Space x → Type 0
  Keeps s s' = (q : ℕ) (m : Mapping) → at_page x q s ≡ some m → at_page x q s' ≡ some m

  -- A free place for `usage` pages, some multiples of 4 GiB below `top`.
  pub record Placed (top usage : ℕ) (s : Space x) (top' : ℕ) (s' : Space x) : Type 0 where
    pub down : (k : ℕ) × (top' + k * stack_max_size ≡ top)
    pub keeps : Keeps s s'
    pub fresh :
        (q : ℕ)
        → within (containing_address top') usage q ≡ true
        → Fresh x (range_flags true) (at_page x q s) (at_page x q s')

  -- `map_range` fails at `top` and, on what each failure leaves, at every place 4 GiB below the one
  -- before, down to the last that is no negative address.
  pub data NoPlace (usage : ℕ) : ℕ → Space x → Type 0 where
    last :
        (top : ℕ) (s s' : Space x) (e : MapToError)
        → map_range x top usage true s ≡ ok (error e, s')
        → top < stack_max_size
        → NoPlace usage top s
    lower :
        (top : ℕ) (s s' : Space x) (e : MapToError)
        → map_range x top usage true s ≡ ok (error e, s')
        → stack_max_size ≤ top
        → NoPlace usage (top - stack_max_size) s'
        → NoPlace usage top s

  abbrev pub Finds : ℕ → ℕ → Space x → Outcome (ℕ × Space x) → Type 0
  Finds top usage s r =
      ((r ≡ panic) × NoPlace usage top s)
      ⊎ ((top' : ℕ) × (s' : Space x) × (r ≡ ok (top', s')) × Placed top usage s top' s')
