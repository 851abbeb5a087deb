-- ===== src/Lib.antt =====
-- A model of the kernel of YatSenOS v2, of the directory 0x01/pkg, and what holds of it.
--
-- The kernel runs user processes on one processor. An interrupt enters a handler with the context
-- of the interrupted process; the handler calls a function of proc/mod.rs, which changes the process
-- manager and overwrites the context with that of the process that goes on. Interrupts are off
-- meanwhile, so every call is one step of the model, and the locks are left out. A function of the
-- model takes the state and returns the new one; what may panic or loop returns an `Outcome`
-- (Prelude/Outcomes.antt): `ok`, `panic` for unwrap, expect and checked subtractions, `endless`
-- where the fuel of a loop ran out. The build is a release build: machine integers wrap, which is
-- written out where the code adds, and debug assertions are left out. Logging is left out.
--
-- Parts of the program (under 0x01/pkg/kernel/src unless another path is given):
--   * Sync/Semaphore.antt, Sync/SemaphoreSet.antt: proc/sync.rs.
--   * Memory/Frames.antt: `BootInfoFrameAllocator` of memory/frames.rs. The lazy iterator of
--     frames is the list of what it has still to give; a frame is its number.
--   * X86.antt: what is used of the crate x86_64, canonical addresses and the page mapper, as an
--     interface with the laws that the crate documents. X86/Flat.antt is an instance, an
--     association list of pages, which shows that the laws can hold together.
--   * Elf.antt: the page ranges of 0x01/pkg/elf/src/lib.rs; Elf/Segments.antt: the loading of a
--     program, as far as pages and frames go; Elf/UserHeap.antt: memory/user.rs. A sum
--     or difference of a page and a number panics where it is no page with an address.
--   * Vm/Heap.antt: proc/vm/heap.rs. The end that forks share is passed to each call and returned.
--   * Vm/Stack.antt: proc/vm/stack.rs, without the contents of memory. The loop of `fork` goes
--     down by 4 GiB, so it runs at most one time more than the first address holds 4 GiB; the fuel
--     is that number, and the theorem on `fork` shows that it does not run out.
--   * Vm/Paging.antt, Vm/Memory.antt: proc/paging.rs and proc/vm/mod.rs. The references that `Arc`
--     counts are numbers in the state; a page table is referred to by the frame of its root. A
--     copied root is taken for a table of its own: that both share the tables below is not
--     modelled.
--   * Io/Input.antt, Io/Resources.antt: drivers/input.rs and utils/resource.rs, without the echo.
--   * Proc/Context.antt: utils/regs.rs and proc/context.rs.
--   * Proc/Memory.antt: the interface of a process's memory that the process manager uses;
--     Proc/Memory/Paged.antt: the memory of Vm/Memory.antt as an instance of it.
--   * Proc/Process.antt: `ProcessInner` and `Process` of proc/process.rs.
--   * Proc/Data.antt: `ProcessData` of proc/data.rs. Forks share it, so a process has a reference
--     to it.
--   * Proc/Kernel.antt: `ProcessManager` of proc/manager.rs, with proc/pid.rs and
--     proc/processor.rs. Processes are kept in a map by pid, and a reference to a process is its
--     pid. The loop of `switch_next` takes one process from the ready queue a round and then
--     always the kernel process, so one round more than the queue is long decides; that is its
--     fuel, and the theorems on `switch_next` show that the loop really does not end where it runs
--     out.
--   * Proc/Calls.antt: the functions of proc/mod.rs that the interrupt handlers call;
--     Proc/Calls/Histories.antt has sequences of them as a step relation.
--   * Syscall.antt: the numbers of 0x01/pkg/syscall/src/lib.rs; Syscall/Service.antt and
--     Syscall/Dispatch.antt: interrupt/syscall/service.rs and mod.rs. The memory of the process,
--     which the services read and write, the allocator of a library behind USER_ALLOCATOR and the
--     time that the firmware tells are parameters; no access of a service to that memory faults.
--   * Syscall/Interrupts.antt: the handlers of interrupt/clock.rs, exceptions.rs and serial.rs;
--     Syscall/Histories.antt has sequences of interrupts, between which the process changes its
--     registers and its memory in any way.
--   * Io/Uart.antt: drivers/uart16550.rs, over any device behind its ports; the wait for room is
--     on fuel, and a device that has room within the fuel is a hypothesis.
--   * Io/Serial.antt: the bytes that interrupt/serial.rs receives, decoded from UTF-8.
--   * Apic/IoApic.antt, Apic/XApic.antt: interrupt/apic. A controller is memory that keeps what is
--     written to it.
--   * Tables.antt: the interrupt descriptor table that the functions `register_idt` of interrupt
--     fill, over the table of the crate x86_64 as an interface, and the task state segment of
--     memory/gdt.rs.
--   * Boot/Config.antt: 0x01/pkg/boot/src/config.rs; Text.antt: the numbers that it and programs
--     parse.
--   * User/Calls.antt: the wrappers of 0x01/pkg/lib/src/syscall.rs, over any `int 0x80`;
--     User/Answers.antt has the kernel behind it. User/Sleep.antt: the loop of `sleep`, on fuel,
--     since it ends only with the clock; User/Lines.antt: `read_line` of 0x01/pkg/lib/src/io.rs;
--     User/Spin.antt: the spin lock of 0x01/pkg/lib/src/sync.rs with threads as a step relation.
--   * App/Factorial.antt, App/Dinner.antt, App/Messages.antt, App/Counter.antt: the programs fab,
--     dinner, md and counter of 0x01/pkg/app; the threads of the last three take their steps in
--     any order.
--   * BTreeMap.antt: maps and sets of the standard library; Prelude.antt: shared names and lemmas.
--   * Tests.antt: runs on concrete inputs.
--
-- Not modelled: printing and logging; the segment descriptors (a library and assembly); the boot
-- loader but for its configuration (firmware calls); the shell and the programs that only print;
-- the file system and the disk driver of 0x06 and the course templates beside 0x01, whose
-- functions are in part left to do and do not compile.
pub mod Prelude
pub mod BTreeMap
pub mod Sync
pub mod Syscall
pub mod Memory
pub mod User
pub mod App
pub mod Boot
pub mod Apic
pub mod Tables
pub mod Text
pub mod X86
pub mod Elf
pub mod Vm
pub mod Io
pub mod Proc
pub mod Tests
