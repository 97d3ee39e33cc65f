-- ===== src/Examples/Library.antt =====
-- The user library in environment 0 on the small machine, and over kernels that answer in a fixed way.
use challenge.Base.{
  List, ◌∷◌, leb, ℕ, false, [], ◌+◌, ◌-◌, ◌≡◌, refl, none, some, ◌==◌, if◌then◌else◌, arith, inl,
}
use challenge.Base.Run.{ok}
use challenge.Mmu.{uxstacktop, pgsize, roundup}
use challenge.Pmap.Tables.{Errno}
use challenge.Pmap.FreeList.Alloc.{IsFreeList}
use challenge.Env.State.{Upcall, Kernel}
use challenge.Syscall.Envs.{neg}
use challenge.Syscall.Dispatch.{syscall}
use challenge.Syscall.Memory.PageAlloc.{sys_page_alloc-no_page}
use challenge.Syscall.Upcalls.Register.{Registered}
use challenge.User.Calls.{Process, Answers}
use challenge.User.Upcalls.{set_variable, set_upcall_handler}
use challenge.User.Upcalls.Register.{set_upcall_handler-Registered}
use challenge.User.Messages.{ipc_send, ipc_send-sent}
use challenge.User.Fork.{fork}
use challenge.User.Fork.Shared.{Call, NotWritable, recorded, calls_of, fork-NotWritable}
use challenge.Examples.{with_free, two_envs, kernel}

abbrev caller : Kernel
caller = kernel (two_envs 3 2 false) 1 (some 0)

-- A program that has set a handler before
abbrev program : Process Kernel
program = record { kernel = caller; handlers = λ _. 0x80_0200; thisenv = 0 }

set_upcall_handler-Registered_example :
    (k' : Kernel) × (set_upcall_handler syscall Upcall.oflow 0x80_0100 0x80_0300 program
      ≡ ok tt (set_variable syscall Upcall.oflow 0x80_0300 (record program { kernel = k' })))
    × Registered caller k' 0 Upcall.oflow 0x80_0100
set_upcall_handler-Registered_example =
    set_upcall_handler-Registered Upcall.oflow 0x80_0100 0x80_0300 program caller 0 0
      (inl ((λ e. omega arith), refl)) refl (inl (refl, refl))

abbrev full : Kernel
full = record caller { pm = with_free none }

no_pages : IsFreeList (with_free none) []
no_pages = record { fits = omega arith; chain = tt; distinct = tt; idle = tt }

-- A new program on a machine with no free page
abbrev new_program : Process Kernel
new_program = record { kernel = full; handlers = λ _. 0; thisenv = 0 }

no_stack : syscall 4 0 (uxstacktop - pgsize) 7 0 0 full ≡ ok 4 full
unfolding syscall roundup
no_stack =
    sys_page_alloc-no_page full 0 0 2 0 (uxstacktop - pgsize) 7 refl (inl (refl, refl)) refl refl
      refl no_pages

-- Kernels whose state counts the messages that they refused: one refuses the first, the other one all.
abbrev busy_once : Answers ℕ
busy_once num a1 a2 a3 a4 a5 k =
    if num == 11 then (if k == 0 then ok (neg Errno.ipc_not_recv) 1 else ok 0 k) else ok 0 k

abbrev busy : Answers ℕ
busy num a1 a2 a3 a4 a5 k = if num == 11 then ok (neg Errno.ipc_not_recv) (k + 1) else ok 0 k

abbrev sender : Process ℕ
sender = record { kernel = 0; handlers = λ _. 0; thisenv = 0 }

ipc_send-sent_example :
    ipc_send busy_once 0x1001 42 0 0 sender ≡ ok tt (record sender { kernel = 1 })
ipc_send-sent_example =
    ipc_send-sent busy_once 0x1001 42 0 0 1 sender 1 1 (omega arith) (1, 1, 0, refl, refl, refl)
      refl

-- The kernel names the child 0x1001, and pages 0 to 1023 are present, writable and the user's.
abbrev child_named : List Call → ℕ
child_named [] = 0
child_named (c ∷ cs) = if c.num == 7 then 0x1001 else 0

abbrev writable_page : List Call → ℕ → ℕ
writable_page log pn = if leb 1024 pn then 0 else 7

abbrev forker : Process (List Call)
forker = record { kernel = []; handlers = λ _. 0; thisenv = 0 }

fork-NotWritable_example :
    NotWritable (
      calls_of (fork (recorded child_named) writable_page writable_page 0x80_0100 0x80_0300 forker))
fork-NotWritable_example =
    fork-NotWritable child_named writable_page writable_page 0x80_0100 0x80_0300 forker refl
