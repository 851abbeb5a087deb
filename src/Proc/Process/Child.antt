-- ===== src/Proc/Process/Child.antt =====
-- The stack pointer that a forked process starts with.
use yat_sen_os.Prelude.{ℕ, ◌+◌, ◌*◌, ◌≡◌, true, arith}
use yat_sen_os.X86.{start_address}
use yat_sen_os.Vm.Stack.{Stack, stack_max_pages, stack_max_size, is_on_stack}
use yat_sen_os.Proc.Process.{child_rsp}

-- Where the parent's stack pointer lies in the 4 GiB of its stack, and the child's stack lies some
-- multiple of 4 GiB below the parent's, the child's stack pointer lies as much below the parent's:
-- it points at the copy of what the parent's points at.
pub child_rsp_lem :
    (parent child : Stack) (n rsp : ℕ)
    → is_on_stack rsp parent ≡ true
    → child.range.start + n * stack_max_pages ≡ parent.range.start
    → child_rsp rsp (start_address child.range.start) + n * stack_max_size ≡ rsp
unfolding child_rsp is_on_stack
child_rsp_lem parent child n rsp on below =
    let a : ℕ = parent.range.start in let b : ℕ = child.range.start in ground arith
