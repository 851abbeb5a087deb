-- ===== src/Vm/Stack.antt =====
-- `Stack` of src/0x01/pkg/kernel/src/proc/vm/stack.rs. `addr & STACK_START_MASK` keeps the bits from
-- bit 32 on, which is `addr / 2^32 * 2^32`. Differences of pages and addresses that would be
-- negative panic in `x86_64`. What `clone_range` copies is not modelled: memory has no contents here.
pub mod Fault
pub mod Fork
use yat_sen_os.Prelude.{
  ℕ, zero, suc, ◌+◌, ◌-◌, ◌*◌, ◌/◌, ◌%◌, ◌^◌, ◌≡◌, ◌≤◌, Bool, true, false, ◌==◌, ltb, if◌then◌else◌,
  Outcome, ok, panic, endless, ◌>>=◌, Result, okay, error,
}
use yat_sen_os.X86.{X86, MapToError, page_size, containing_address, start_address}
use yat_sen_os.Elf.{Space, PageRange, map_range, unmap_pages}

abbrev pub stack_max : ℕ
stack_max = 0x4000_0000_0000

abbrev pub stack_max_pages : ℕ
stack_max_pages = 0x100000

abbrev pub stack_max_size : ℕ
stack_max_size = stack_max_pages * page_size

abbrev pub stack_def_page : ℕ
stack_def_page = 1

abbrev pub stack_def_size : ℕ
stack_def_size = stack_def_page * page_size

abbrev pub stack_init_bot : ℕ
stack_init_bot = stack_max - stack_def_size

abbrev pub stack_init_top : ℕ
stack_init_top = stack_max - 8

abbrev pub kstack_max : ℕ
kstack_max = 0xffff_ff02_0000_0000

abbrev pub kstack_def_page : ℕ
kstack_def_page = 8

abbrev pub kstack_init_bot : ℕ
kstack_init_bot = kstack_max - kstack_def_page * page_size

abbrev pub kstack_init_top : ℕ
kstack_init_top = kstack_max - 8

-- `addr & STACK_START_MASK`
abbrev pub start_mask : ℕ → ℕ
start_mask addr = addr / stack_max_size * stack_max_size

pub record Stack : Type 0 where
  pub range : PageRange
  pub usage : ℕ

unfoldable pub new : ℕ → ℕ → Outcome Stack
new top size =
    if ltb top size
    then panic
    else ok (record { range = record { start = top - size + 1; stop = top + 1 }; usage = size })

unfoldable pub empty : Stack
empty =
    let page = containing_address stack_init_top in
    record { range = record { start = page; stop = page }; usage = 0 }

unfoldable pub kstack : Stack
kstack = record {
  range = record {
    start = containing_address kstack_init_bot;
    stop = containing_address kstack_init_top;
  };
  usage = kstack_def_page;
}

unfoldable pub is_on_stack : ℕ → Stack → Bool
is_on_stack addr s = start_mask addr == start_mask (start_address s.range.start)

unfoldable pub memory_usage : Stack → ℕ
memory_usage s = s.usage * page_size

-- `PageRange` minus a page that lies above its start.
abbrev pub checked_sub : ℕ → ℕ → Outcome ℕ
checked_sub a b = if ltb a b then panic else ok (a - b)

module _ (x : X86) where
  abbrev pub placed : ℕ → Result PageRange MapToError × Space x → Outcome (Stack × Space x)
  placed usage (okay range, s) = ok (record { range = range; usage = usage }, s)
  placed usage (error e, s) = panic

  unfoldable pub init : Stack → Space x → Outcome (Stack × Space x)
  init st s = do placed stack_def_page (← map_range x stack_init_bot stack_def_page true s)

  abbrev pub extended : Stack → ℕ → Result PageRange MapToError × Space x → Bool × Stack × Space x
  extended st count (okay range, s) = (
    true,
    record {
      range = record { start = range.start; stop = st.range.stop };
      usage = st.usage + count;
    },
    s,
  )
  extended st count (error e, s) = (false, st, s)

  unfoldable pub grow_stack : ℕ → Stack → Space x → Outcome (Bool × Stack × Space x)
  grow_stack addr st s = do
    let aim_page = containing_address addr
    count ← checked_sub st.range.start aim_page
    out ← map_range x (start_address aim_page) count true s
    ok (extended st count out)

  unfoldable pub handle_page_fault : ℕ → Stack → Space x → Outcome (Bool × Stack × Space x)
  unfolding is_on_stack
  handle_page_fault addr st s =
      if is_on_stack addr st then grow_stack addr st s else ok (false, st, s)

  -- A round of the loop of `fork`: where the range could not be mapped, go on 4 GiB below.
  abbrev pub retry :
      (ℕ → Space x → Outcome (ℕ × Space x))
      → ℕ
      → Result PageRange MapToError × Space x
      → Outcome (ℕ × Space x)
  retry go_on top (okay range, s) = ok (top, s)
  retry go_on top (error e, s) = checked_sub top stack_max_size >>= λ below. go_on below s

  unfoldable pub place : ℕ → ℕ → ℕ → Space x → Outcome (ℕ × Space x)
  place zero top usage s = endless
  place (suc fuel) top usage s =
      map_range x top usage true s >>= λ out. retry (λ below s'. place fuel below usage s') top out

  unfoldable pub fork : ℕ → Stack → Space x → Outcome (Stack × Space x)
  fork offset st s = do
    first ← checked_sub st.range.start offset
    let top = start_address first
    (top', s') ← place (suc (top / stack_max_size)) top st.usage s
    let start = containing_address top'
    ok (record { range = record { start = start; stop = start + st.usage }; usage = st.usage }, s')

  unfoldable pub clean_up : Stack → Space x → Outcome (Stack × Space x)
  clean_up st s = if st.usage == 0 then ok (st, s) else (do
    (done, s') ← unmap_pages x (start_address st.range.start) st.usage true s
    ok (record st { usage = 0 }, s'))
