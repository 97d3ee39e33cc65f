-- ===== src/Lib.antt =====
-- The kernel of JOS with exceptions handled by user code and a queue of message senders.
--
-- The program. `trap` (kern/trap.c) gets every interrupt and exception; exceptions of user code go to a
-- handler per kind, which resumes the environment at the upcall that it has registered or destroys it.
-- System calls (kern/syscall.c) create environments, map pages, register upcalls and exchange messages.
-- They use environments (kern/env.c), pages and page tables (kern/pmap.c), the scheduler (kern/sched.c)
-- and one big kernel lock (kern/spinlock.c). The library of user programs (lib/) registers handlers with
-- the kernel and sends messages by the system calls; strings and formatted printing (lib/string.c,
-- lib/printfmt.c) serve both.
--
-- The model. Kernel code on one CPU is a function from a state to a run: `ok` with a value and the new
-- state, or `exit` where the code never returns to its caller (Base/Run: a panic, the return to user
-- mode, the halt, the monitor, a wait for the lock, a fault on NULL). The state is the record `Kernel`
-- of Env/State, whose field `pm` is the state of kern/pmap.c with physical memory. A pointer to an
-- environment or to a page is its index in the array; a pointer to a page table is the number of the
-- page that it stands in. A program of the user library is a run over the kernel's state and its own
-- variables; the kernel is there any function that answers system calls, and kern/syscall.c for the
-- registration of handlers. Numbers are natural numbers, with the wrap-around of 32-bit and 16-bit
-- values written out.
--
-- Which file models what:
--   Mmu               inc/mmu.h, inc/memlayout.h, inc/types.h
--   Pmap/Pages        kern/pmap.c: page_alloc, page_free, page_decref
--   Pmap/Init         kern/pmap.c: boot_alloc, page_init
--   Pmap/Boot         kern/pmap.c: boot_map_region, mem_init_mp, mmio_map_region
--   Pmap/Tables       kern/pmap.c: pgdir_walk, page_lookup, page_insert, page_remove
--   Pmap/Access       kern/pmap.c: user_mem_check
--   Spinlock          kern/spinlock.c; Turns: several CPUs at a time
--   Console           kern/console.c: cons_intr, cons_getc; Keyboard: kbd_proc_data; Display: cons_putc
--   Env/State         inc/env.h, inc/trap.h, kern/cpu.h; kern/env.c: envid2env
--   Env/Alloc         kern/env.c: env_init, env_alloc
--   Env/Switch        kern/env.c: env_run, env_pop_tf
--   Env/Free          kern/env.c: env_free, env_destroy; kern/pmap.c: user_mem_assert
--   Env/Load          kern/env.c: region_alloc, load_icode, env_create
--   Sched             kern/sched.c
--   Syscall           kern/syscall.c: Envs, Upcalls, Memory, Ipc by subject, and Dispatch
--   Trap              kern/trap.c: Handlers for the exceptions, Dispatch for trap and trap_dispatch
--   Mpconfig          kern/mpconfig.c
--   Kdebug            kern/kdebug.c: stab_binsearch
--   Monitor           kern/monitor.c: the command line, showmappings, setperm
--   Readline          lib/readline.c
--   Strings           lib/string.c
--   Format            lib/printfmt.c: Escape for the flags, Buffer for vsnprintf; Output: lib/printf.c
--                     and kern/printf.c
--   User              lib/syscall.c (Calls), lib/pgfault.c, lib/divzero.c and their 16 siblings (Upcalls),
--                     lib/ipc.c (Messages), lib/fork.c (Fork)
-- Their child modules hold the proofs, and Examples applies the theorems to a small machine.
--
-- Loops. The searches of kern/sched.c and the loop of env_init run over the NENV environments, those of
-- env_free over the entries of the tables. The loop of user_mem_check has a round for each of the
-- 2 ^ 20 pages of the address space, which is as many as it can make.
-- The loops over strings, digits and formats have fuel, and return `none` where it runs out: 65 rounds
-- print a number of 64 bits, one round more than the length is enough for a string or a format, and one
-- more than its pages for a region that boot_map_region or region_alloc maps. Two rounds for each stab and
-- two more are enough for stab_binsearch, and one round more than the words for a command line.
--
-- Not modelled: the devices, the boot sequence, the assembly stubs, the setting up of the processor's
-- tables, mem_init as a whole, debuginfo_eip with the backtrace, and the user programs. What system calls
-- print is left out. The record of the lock's call stack (get_caller_pcs) serves only messages. The `hlt`
-- on a panic of another CPU is left out. vsnprintf prints from the memory before the call, which is what
-- the source does where no text of the arguments lies in the buffer.
pub mod Base
pub mod Mmu
pub mod Pmap
pub mod Spinlock
pub mod Console
pub mod Env
pub mod Sched
pub mod Syscall
pub mod Trap
pub mod Examples
pub mod Format
pub mod Kdebug
pub mod Monitor
pub mod Mpconfig
pub mod Readline
pub mod Strings
pub mod User
