-- ===== src/Syscall/Interrupts.antt =====
-- The handlers of interrupts of src/0x01/pkg/kernel/src/interrupt: clock.rs, exceptions.rs,
-- serial.rs and syscall/mod.rs, as steps of the system, and what any sequence of them keeps.
use yat_sen_os.Prelude.{ℕ, Bool, true, false, Option, List, Outcome, ok, panic, ◌>>=◌}
use yat_sen_os.X86.{X86}
use yat_sen_os.Io.Serial.{receive}
use yat_sen_os.Proc.Context.{ProcessContext}
use yat_sen_os.Proc.Memory.{ProcessMemory}
use yat_sen_os.Proc.Kernel
use yat_sen_os.Proc.Kernel.{Kernel}
use yat_sen_os.Proc.Calls
use yat_sen_os.Syscall.Service.{UserSpace, System, After, FirmwareTime, resumed}
use yat_sen_os.Syscall.Dispatch.{dispatcher}

-- The exceptions that have a handler, but for page faults.
pub data Exception : Type 0 where
  divide_error double_fault general_protection_fault alignment_check : Exception
  bound_range_exceeded breakpoint cp_protection_exception stack_segment_fault : Exception
  invalid_opcode x87_floating_point machine_check debug hv_injection_exception : Exception
  invalid_tss non_maskable_interrupt overflow security_exception : Exception
  segment_not_present simd_floating_point virtualization device_not_available : Exception
  vmm_commumication_exception : Exception

-- What enters the kernel: an exception, the timer, `int 0x80` with the time that the firmware would tell, a fault
-- at an address, or the bytes that the serial port holds.
pub data Interrupt : Type 0 where
  clock : Interrupt
  syscall : Option FirmwareTime → Interrupt
  page_fault : ℕ → Bool → Interrupt
  serial : List ℕ → Interrupt
  exception : Exception → Interrupt

module _ (v : ProcessMemory) (u : UserSpace v) (x : X86) where
  -- A fault that is not handled is logged, with the current process.
  unfoldable pub noted : Bool → Kernel v → Outcome (Kernel v)
  noted true k = ok k
  noted false k = do (pid, p) ← Kernel.current_proc v k; ok k

  unfoldable pub page_fault_handler : ℕ → Bool → ProcessContext → System v u → After v u
  unfolding noted
  page_fault_handler addr by_write context s = do
    (handled, k) ← Calls.handle_page_fault v addr by_write s.kernel
    k' ← noted handled k
    ok (context, record s { kernel = k' })

  -- Every one of these handlers panics, after it has printed what it was given.
  unfoldable pub exception_handler : Exception → After v u
  exception_handler e = panic

  unfoldable pub handle : Interrupt → ProcessContext → System v u → After v u
  unfolding page_fault_handler exception_handler
  handle clock context s = resumed v u s (Calls.switch v context s.kernel)
  handle (syscall now) context s = dispatcher v u x now context s
  handle (page_fault addr by_write) context s = page_fault_handler addr by_write context s
  handle (serial bytes) context s = ok (context, record s { input = receive bytes s.input })
  handle (exception e) context s = exception_handler e
