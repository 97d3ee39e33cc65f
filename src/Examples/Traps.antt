-- ===== src/Examples/Traps.antt =====
-- Exceptions of environment 0 on the small machine.
use challenge.Base.{ℕ, ◌/◌, ◌%◌, ◌≡◌, refl, false, some, arith, inl, ◌-◌}
use challenge.Base.Run.{Run, ok, exit, Exit}
use challenge.Mmu.{uxstacktop, pgsize}
use challenge.Env.State.{Upcall, Kernel}
use challenge.Env.Free.{free_vm}
use challenge.Env.Free.Destroyed.{Destroyed}
use challenge.Trap.Dispatch.Destroys.{trap-no_upcall}
use challenge.Sched.Choice.{FirstRunnable}
use challenge.Pmap.Pages.{Pmap}
use challenge.Trap.Handlers.{user_handler, utf_address}
use challenge.Trap.Handlers.Frame.{Writable}
use challenge.Trap.Handlers.Upcalls.{ExceptionStack}
use challenge.Trap.Dispatch.{trap, trap_dispatch}
use challenge.Trap.Dispatch.Vectors.{trap_dispatch-vector}
use challenge.Trap.Dispatch.UserTrap.{FromUser, UserHandles, trap-UserHandles}
use challenge.Examples.{memory, machine, frame_of, two_envs, kernel, machine-TablesInMemory}

-- Environment 0 runs in user mode.
abbrev user_kernel : Kernel
user_kernel = kernel (two_envs 3 2 false) 0 (some 0)

stack-Writable : Writable memory 2 (uxstacktop / pgsize - 1) 3 5
stack-Writable = record {
  directory = refl;
  table = refl;
  present = refl;
  writable = refl;
  frame = refl;
  not_directory = omega arith;
  not_table = omega arith;
}

stack : ExceptionStack user_kernel 2 3 5
stack = record {
  tables = machine-TablesInMemory;
  granted = record { low = omega arith; directory = refl; present = refl; permits = refl };
  writable = stack-Writable;
}

trapped-FromUser : (trapno : ℕ) → FromUser user_kernel 0 (frame_of trapno 0x1b 0xeebf_dfd0)
trapped-FromUser trapno = record {
  running = refl;
  not_halted = omega arith;
  lock_free = refl;
  not_dying = omega arith;
  user_mode = refl;
}

frame_aligned : utf_address 0xeebf_dfd0 % 4 ≡ 0
unfolding utf_address
frame_aligned = refl

trap-UserHandles_example :
    (k' : Kernel) × (trap false 0 (frame_of 0 0x1b 0xeebf_dfd0) user_kernel
      ≡ exit (Exit.resumed 0) k')
    × UserHandles user_kernel k' 0 0x80_0020 0 5 (frame_of 0 0x1b 0xeebf_dfd0)
trap-UserHandles_example =
    trap-UserHandles user_kernel 0 0 (frame_of 0 0x1b 0xeebf_dfd0) Upcall.divzero
      (trapped-FromUser 0) refl 2 3 5 0x80_0020 refl stack (inl (omega arith)) frame_aligned refl
      (omega arith)

-- Environment 1 is runnable.
abbrev other_ready : Kernel
other_ready = kernel (two_envs 3 2 false) 0 (some 0)

abbrev memory_of : Run Pmap (Unit {0}) → Pmap
memory_of (ok _ pm) = pm
memory_of (exit _ pm) = pm

given_up : free_vm (some (some 2)) 2 machine ≡ ok tt (memory_of (free_vm (some (some 2)) 2 machine))
unfolding free_vm
given_up = refl

next_one : FirstRunnable other_ready.envs 0 1 1
next_one = record {
  inside = omega arith;
  place = refl;
  runnable = refl;
  skipped = λ j lt. ground arith;
}

trap-no_upcall_example :
    (k' : Kernel) × (trap false 0 (frame_of 3 0x1b 0xeebf_dfd0) other_ready
      ≡ exit (Exit.resumed 1) k')
    × Destroyed 0 1 4 other_ready (memory_of (free_vm (some (some 2)) 2 machine)) k'
trap-no_upcall_example =
    trap-no_upcall other_ready 0 0 (frame_of 3 0x1b 0xeebf_dfd0) Upcall.bpoint 2
      (memory_of (free_vm (some (some 2)) 2 machine)) 1 1 4 (trapped-FromUser 3) refl refl refl
      given_up next_one (omega arith) refl

trap_dispatch-vector_example :
    trap_dispatch 0 (frame_of 19 0x1b 0) ≡ user_handler Upcall.simdfperror 0 (frame_of 19 0x1b 0)
trap_dispatch-vector_example = trap_dispatch-vector Upcall.simdfperror 0 (frame_of 19 0x1b 0) refl
