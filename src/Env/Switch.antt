-- ===== src/Env/Switch.antt =====
-- kern/env.c: `env_run` and `env_pop_tf`, which leave the kernel.
pub mod Resume
use challenge.Base.{ℕ, ◌+◌, ◌%◌, ◌^◌, Bool, Option, none, some, ◌==◌, if◌then◌else◌}
use challenge.Base.Run.{Run, ok, exit, Exit, Cmd, pure, modify, ◌>>=◌, ◌>>◌}
use challenge.Env.State.{
  Env, Kernel, Result, env_runnable, env_running, curenv, set_curenv, set_env, eq_opt, deref,
  unlock_kernel,
}

-- The `iret` restores the registers of `curenv`.
pop_tf : Option ℕ → Cmd Kernel (Unit {0})
pop_tf none k = exit Exit.kernel_fault k
pop_tf (some c) k =
    exit (Exit.resumed c) (set_env c (record (k.envs c) { env_cpunum = k.cpunum }) k)

unfoldable pub env_pop_tf : Cmd Kernel (Unit {0})
unfolding pop_tf
env_pop_tf k = pop_tf (curenv k) k

-- `if (curenv && curenv->env_status == ENV_RUNNING) curenv->env_status = ENV_RUNNABLE`
preempt : Option ℕ → Kernel → Kernel
preempt none k = k
preempt (some c) k =
    if (k.envs c).env_status == env_running
    then set_env c (record (k.envs c) { env_status = env_runnable }) k
    else k

-- `env_runs` is a uint32_t.
abbrev enter : ℕ → Kernel → Kernel
enter e k =
    set_env e
      (record (k.envs e) {
        env_status = env_running;
        env_runs = ((k.envs e).env_runs + 1) % 2 ^ 32;
      })
      (set_curenv (some e) k)

-- `lcr3(PADDR(e->env_pgdir))`, where PADDR panics at NULL
load_cr3 : Option ℕ → Cmd Kernel (Unit {0})
load_cr3 none k = exit Exit.kernel_fault k
load_cr3 (some d) k = ok tt (record k { cr3 = d })

switch_to : ℕ → Cmd Kernel (Unit {0})
unfolding preempt load_cr3
switch_to e k = let k' = enter e (preempt (curenv k) k) in load_cr3 (k'.envs e).env_pgdir k'

unfoldable pub env_run : ℕ → Cmd Kernel (Unit {0})
unfolding switch_to env_pop_tf unlock_kernel
env_run e k =
    (do (if eq_opt (curenv k) e then pure tt else switch_to e); unlock_kernel; env_pop_tf) k
