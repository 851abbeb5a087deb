-- ===== src/Proc/Context.antt =====
-- `RegistersValue` of src/0x01/pkg/kernel/src/utils/regs.rs and `ProcessContext` of
-- src/0x01/pkg/kernel/src/proc/context.rs. Every field is a machine word.
use yat_sen_os.Prelude.{ℕ}

pub record RegistersValue : Type 0 where
  pub r15 : ℕ
  pub r14 : ℕ
  pub r13 : ℕ
  pub r12 : ℕ
  pub r11 : ℕ
  pub r10 : ℕ
  pub r9 : ℕ
  pub r8 : ℕ
  pub rdi : ℕ
  pub rsi : ℕ
  pub rdx : ℕ
  pub rcx : ℕ
  pub rbx : ℕ
  pub rax : ℕ
  pub rbp : ℕ

-- `InterruptStackFrameValue`, what the processor saves on an interrupt.
pub record StackFrame : Type 0 where
  pub instruction_pointer : ℕ
  pub code_segment : ℕ
  pub cpu_flags : ℕ
  pub stack_pointer : ℕ
  pub stack_segment : ℕ

pub record ProcessContext : Type 0 where
  pub regs : RegistersValue
  pub stack_frame : StackFrame

abbrev pub zero_regs : RegistersValue
zero_regs = record {
  r15 = 0;
  r14 = 0;
  r13 = 0;
  r12 = 0;
  r11 = 0;
  r10 = 0;
  r9 = 0;
  r8 = 0;
  rdi = 0;
  rsi = 0;
  rdx = 0;
  rcx = 0;
  rbx = 0;
  rax = 0;
  rbp = 0;
}

unfoldable pub default : ProcessContext
default = record {
  regs = zero_regs;
  stack_frame = record {
    instruction_pointer = 0x1000;
    code_segment = 0;
    cpu_flags = 0;
    stack_pointer = 0x2000;
    stack_segment = 0;
  };
}

unfoldable pub set_rax : ℕ → ProcessContext → ProcessContext
set_rax value c = record c { regs = record (c.regs) { rax = value } }

-- `save` overwrites the stored context, `restore` the one of the interrupt.
unfoldable pub save : ProcessContext → ProcessContext → ProcessContext
save context stored = context

unfoldable pub restore : ProcessContext → ProcessContext → ProcessContext
restore stored context = stored

-- The selectors of the global descriptor table, an argument here.
pub record UserSelectors : Type 0 where
  pub user_code_selector : ℕ
  pub user_data_selector : ℕ

-- `IOPL_HIGH | IOPL_LOW | INTERRUPT_FLAG`
abbrev pub user_flags : ℕ
user_flags = 0x3200

unfoldable pub init_stack_frame : UserSelectors → ℕ → ℕ → ProcessContext → ProcessContext
init_stack_frame selector entry stack_top c = record c {
  stack_frame = record {
    instruction_pointer = entry;
    code_segment = selector.user_code_selector;
    cpu_flags = user_flags;
    stack_pointer = stack_top;
    stack_segment = selector.user_data_selector;
  };
}

unfoldable pub get_stack_top : ProcessContext → ℕ
get_stack_top c = c.stack_frame.stack_pointer

unfoldable pub update_rsp : ℕ → ProcessContext → ProcessContext
update_rsp stack_top c = record c {
  stack_frame = record (c.stack_frame) { stack_pointer = stack_top };
}
