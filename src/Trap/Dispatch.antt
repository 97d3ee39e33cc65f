-- ===== src/Trap/Dispatch.antt =====
-- kern/trap.c: the dispatch of a trap and the way back to user mode. The console output is left out.
pub mod Vectors
pub mod UserTrap
pub mod Destroys
use challenge.Base.{
  ℕ, ◌+◌, bit_and, Bool, true, false, not, ◌&&◌, Option, none, some, ◌==◌, if◌then◌else◌, update,
}
use challenge.Base.Run.{Panic, Run, ok, exit, Exit, Cmd, pure, panic, modify, ◌>>=◌, ◌>>◌}
use challenge.Mmu.{gd_kt, fl_if}
use challenge.Env.State.{
  Trapframe, Env, CpuInfo, Kernel, env_dying, env_running, cpu_started, cpu_halted, curenv,
  set_curenv, set_env, deref, lock_kernel,
}
use challenge.Env.Switch.{env_run}
use challenge.Env.Free.{env_free, env_destroy}
use challenge.Sched.{sched_yield}
use challenge.Syscall.Dispatch.{syscall}
use challenge.Trap.Handlers.{
  page_fault_handler, divide_zero_handler, debug_exception_handler, non_maskable_interrupt_handler,
  breakpoint_handler, overflow_handler, bounds_check_handler, illegal_opcode_handler,
  device_not_available_handler, double_fault_handler, invalid_task_switch_segment_handler,
  segment_not_present_handler, stack_exception_handler, general_protection_fault_handler,
  floating_point_error_handler, aligment_check_handler, machine_check_handler,
  simd_floating_point_error_handler,
}

-- `tf->tf_regs.reg_eax = syscall(...)`, where `tf` points at the frame of `curenv`, as it does for a
-- trap from user mode
system_call : ℕ → Trapframe → Cmd Kernel (Unit {0})
unfolding syscall
system_call c tf k =
    let r = tf.tf_regs in
    (do
      v ← syscall r.reg_eax r.reg_edx r.reg_ecx r.reg_ebx r.reg_edi r.reg_esi
      modify (λ (s : Kernel).
          let old = (s.envs c).env_tf in
          let regs = old.tf_regs in
          set_env c
            (record (s.envs c) { env_tf = record old { tf_regs = record regs { reg_eax = v } } })
            s))
      k

-- The traps that no case of the switch takes: the spurious interrupt, the clock, and all others.
other_trap : Trapframe → Cmd Kernel (Unit {0})
unfolding sched_yield env_destroy
other_trap tf k =
    if tf.tf_trapno == 32 + 7
    then ok tt k
    else if tf.tf_trapno == 32 + 0
    then sched_yield k
    else if tf.tf_cs == gd_kt
    then panic Panic.unhandled_trap k
    else (do c ← deref (curenv k); env_destroy c) k

unfoldable pub trap_dispatch : ℕ → Trapframe → Cmd Kernel (Unit {0})
unfolding system_call other_trap
trap_dispatch fault_va tf =
    if tf.tf_trapno == 0
    then divide_zero_handler fault_va tf
    else if tf.tf_trapno == 14
    then page_fault_handler fault_va tf
    else if tf.tf_trapno == 1
    then debug_exception_handler fault_va tf
    else if tf.tf_trapno == 2
    then non_maskable_interrupt_handler fault_va tf
    else if tf.tf_trapno == 3
    then breakpoint_handler fault_va tf
    else if tf.tf_trapno == 4
    then overflow_handler fault_va tf
    else if tf.tf_trapno == 5
    then bounds_check_handler fault_va tf
    else if tf.tf_trapno == 6
    then illegal_opcode_handler fault_va tf
    else if tf.tf_trapno == 7
    then device_not_available_handler fault_va tf
    else if tf.tf_trapno == 8
    then double_fault_handler fault_va tf
    else if tf.tf_trapno == 10
    then invalid_task_switch_segment_handler fault_va tf
    else if tf.tf_trapno == 11
    then segment_not_present_handler fault_va tf
    else if tf.tf_trapno == 12
    then stack_exception_handler fault_va tf
    else if tf.tf_trapno == 13
    then general_protection_fault_handler fault_va tf
    else if tf.tf_trapno == 16
    then floating_point_error_handler fault_va tf
    else if tf.tf_trapno == 17
    then aligment_check_handler fault_va tf
    else if tf.tf_trapno == 18
    then machine_check_handler fault_va tf
    else if tf.tf_trapno == 19
    then simd_floating_point_error_handler fault_va tf
    else if tf.tf_trapno == 48
    then (λ (k : Kernel). (do c ← deref (curenv k); system_call c tf) k)
    else other_trap tf

-- `curenv->env_status == ENV_DYING`: the zombie is freed and another environment runs.
reap : ℕ → Cmd Kernel (Unit {0})
unfolding env_free sched_yield
reap c k =
    if (k.envs c).env_status == env_dying
    then (do env_free c; modify (set_curenv none); sched_yield) k
    else ok tt k

-- `assert(curenv)`
assert_curenv : Option ℕ → Cmd Kernel ℕ
assert_curenv none = panic Panic.assertion
assert_curenv (some c) = ok c

-- The part of `trap` for a trap from user mode, before the dispatch.
from_user : Trapframe → Cmd Kernel (Unit {0})
unfolding assert_curenv reap lock_kernel
from_user tf k =
    (do
      c ← assert_curenv (curenv k)
      lock_kernel
      reap c
      modify (λ (s : Kernel). set_env c (record (s.envs c) { env_tf = tf }) s))
      k

-- The end of `trap`, where no other environment was scheduled.
unfoldable pub return_from_trap : Option ℕ → Cmd Kernel (Unit {0})
unfolding env_run sched_yield
return_from_trap none k = sched_yield k
return_from_trap (some c) k =
    if (k.envs c).env_status == env_running then env_run c k else sched_yield k

-- `xchg(&thiscpu->cpu_status, CPU_STARTED) == CPU_HALTED`
restart : Cmd Kernel (Unit {0})
unfolding lock_kernel
restart k =
    let me = k.cpus k.cpunum in
    let k' = record k { cpus = update k.cpus k.cpunum (record me { cpu_status = cpu_started }) } in
    if me.cpu_status == cpu_halted then lock_kernel k' else ok tt k'

-- `if_set` says whether interrupts are enabled, which the code asserts they are not. The `hlt` where
-- another CPU has panicked is left out.
unfoldable pub trap : Bool → ℕ → Trapframe → Cmd Kernel (Unit {0})
unfolding restart from_user trap_dispatch return_from_trap
trap if_set fault_va tf = do
  restart
  (if if_set then panic Panic.assertion else pure tt)
  (if bit_and tf.tf_cs 3 == 3 then from_user tf else pure tt)
  trap_dispatch fault_va tf
  λ (s : Kernel). return_from_trap (curenv s) s
