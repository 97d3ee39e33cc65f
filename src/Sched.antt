-- ===== src/Sched.antt =====
-- kern/sched.c: the choice of the next environment.
pub mod Choice
pub mod Idle
use challenge.Base.{
  ℕ, zero, suc, ◌+◌, ◌%◌, Bool, true, false, ◌||◌, Option, none, some, ◌==◌, if◌then◌else◌, update,
}
use challenge.Base.Run.{Run, ok, exit, Exit, Cmd, pure, ◌>>=◌, ◌>>◌}
use challenge.Env.State.{
  Env, CpuInfo, Kernel, nenv, envx, env_dying, env_runnable, env_running, curenv, set_curenv,
  unlock_kernel, cpu_halted,
}
use challenge.Env.Switch.{env_run}

-- `n` rounds of the search of `sched_yield`, from round `i`
pub next_runnable : ℕ → ℕ → ℕ → (ℕ → Env) → Option ℕ
next_runnable zero i offset envs = none
next_runnable (suc n) i offset envs =
    let rest = next_runnable n (i + 1) offset envs in
    if (envs ((i + offset) % nenv)).env_status == env_runnable
    then some ((i + offset) % nenv)
    else rest

abbrev is_alive : Env → Bool
is_alive e =
    e.env_status == env_runnable || (e.env_status == env_running || e.env_status == env_dying)

-- The loop of `sched_halt`: whether some environment from index `i` on is not free or waiting.
any_alive : ℕ → ℕ → (ℕ → Env) → Bool
any_alive zero i envs = false
any_alive (suc n) i envs = is_alive (envs i) || any_alive n (i + 1) envs

unfoldable pub sched_halt : Cmd Kernel (Unit {0})
unfolding any_alive unlock_kernel
sched_halt k =
    if any_alive nenv 0 k.envs
    then (do unlock_kernel; exit Exit.halted)
        (record k {
          cpus = update k.cpus k.cpunum (record { cpu_status = cpu_halted; cpu_env = none });
          cr3 = k.pm.kern_pgdir;
        })
    else exit Exit.in_monitor k

-- `if (curenv && curenv->env_status == ENV_RUNNING) env_run(curenv)`, and the halt behind it
stay_or_halt : Option ℕ → Cmd Kernel (Unit {0})
unfolding sched_halt env_run
stay_or_halt none k = sched_halt k
stay_or_halt (some c) k = if (k.envs c).env_status == env_running then env_run c k else sched_halt k

-- `curenv ? ENVX(curenv->env_id) : 0`
pub search_offset : Option ℕ → Kernel → ℕ
search_offset none k = 0
search_offset (some c) k = envx (k.envs c).env_id

run_found : Option ℕ → Cmd Kernel (Unit {0})
unfolding stay_or_halt
run_found none k = stay_or_halt (curenv k) k
run_found (some e) k = env_run e k

unfoldable pub sched_yield : Cmd Kernel (Unit {0})
unfolding next_runnable search_offset run_found
sched_yield k = run_found (next_runnable nenv 0 (search_offset (curenv k) k) k.envs) k
