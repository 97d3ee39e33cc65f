-- ===== src/Sched/Idle.antt =====
-- What `sched_yield` of kern/sched.c does where no environment is RUNNABLE.
use challenge.Base.{
  ℕ, zero, suc, ◌+◌, ◌≤◌, ◌<◌, ◌≡◌, refl, ◌≢◌, sym, ◌∙◌, ap, true, false, ◌||◌, Option, none, some,
  arith, if_true, if_false, Bool-cases, inl, inr, update, ==_ne, ==_iff,
}
use mathlib.Core.Bool.{true≢false}
use native.Mathlib.Decide.{ℕ_discrete}
use challenge.Base.Run.{exit, Exit}
use challenge.Env.State.{
  Env, Kernel, nenv, env_runnable, env_running, curenv, set_env, unlock_kernel, cpu_halted,
}
use challenge.Env.Switch.Resume.{HasLock, unlocked, unlock_runs, on_cpu, env_run-current}
use challenge.Sched.{
  next_runnable, any_alive, is_alive, sched_halt, stay_or_halt, run_found, sched_yield,
}
use challenge.Sched.Choice.{NoneRunnable, offset_of, search_none, offset_eq}

yield_none : (k : Kernel) → NoneRunnable k.envs → sched_yield k ≡ stay_or_halt (curenv k) k
unfolding sched_yield run_found
yield_none k idle =
    ap (λ (o : ℕ). run_found (next_runnable nenv 0 o k.envs) k) (offset_eq (curenv k) k)
    ∙ ap (λ (o : Option ℕ). run_found o k) (search_none k.envs (offset_of k) idle)

-- With no RUNNABLE environment and the lock held, `sched_yield` goes back to the current
-- environment if that is still RUNNING, with no change but the CPU noted and the lock released.
pub sched_yield-current_running :
    (k : Kernel) (c : ℕ)
    → NoneRunnable k.envs
    → curenv k ≡ some c
    → (k.envs c).env_status ≡ env_running
    → HasLock k
    → sched_yield k ≡ exit (Exit.resumed c) (set_env c (on_cpu k.cpunum (k.envs c)) (unlocked k))
unfolding stay_or_halt
sched_yield-current_running k c idle cur running lock =
    yield_none k idle
    ∙ ap (λ (o : Option ℕ). stay_or_halt o k) cur
    ∙ if_true _ _ ((==_iff _ env_running).1 running)
    ∙ env_run-current k c cur lock

-- The environment that this CPU could go on with is not RUNNING.
abbrev pub NothingToResume : Kernel → Type 0
NothingToResume k = (c : ℕ) → curenv k ≡ some c → (k.envs c).env_status ≢ env_running

yield_halts :
    (k : Kernel) (o : Option ℕ)
    → ((c : ℕ) → o ≡ some c → (k.envs c).env_status ≢ env_running)
    → stay_or_halt o k ≡ sched_halt k
unfolding stay_or_halt
yield_halts k none stop = refl
yield_halts k (some c) stop = if_false _ _ (==_ne _ env_running (stop c refl))

dead-≢ : (e : Env) → is_alive e ≡ false → e.env_status ≢ env_runnable
dead-≢ e h = ground arith

any_alive_from :
    (n i : ℕ) (envs : ℕ → Env)
    → any_alive n i envs ≡ true
    → (e : ℕ) × (i ≤ e) × (e < i + n) × (is_alive (envs e) ≡ true)
unfolding any_alive
any_alive_from zero i envs h = ground arith
any_alive_from (suc n) i envs h = elim (Bool-cases (is_alive (envs i))) [
  | inl a ↦ (i, omega arith, omega arith, a)
  | inr d ↦
      let (e, lo, hi, a) =
        any_alive_from n (i + 1) envs (sym (ap (λ b. b || any_alive n (i + 1) envs) d) ∙ h) in
      (e, omega arith, omega arith, a)
]

any_alive_at :
    (n i : ℕ) (envs : ℕ → Env) (e : ℕ)
    → i ≤ e
    → e < i + n
    → is_alive (envs e) ≡ true
    → any_alive n i envs ≡ true
unfolding any_alive
any_alive_at zero i envs e lo hi a = ground arith
any_alive_at (suc n) i envs e lo hi a = elim (Bool-cases (is_alive (envs i))) [
  | inl b ↦ rw b refl
  | inr d ↦ ap (λ b. b || any_alive n (i + 1) envs) d ∙ elim (ℕ_discrete i e) [
    | yes q ↦ elim (true≢false (sym a ∙ ap (λ x. is_alive (envs x)) (sym q) ∙ d)) [ ]
    | no q ↦ any_alive_at n (i + 1) envs e (omega arith) (omega arith) a
  ]
]

none_alive :
    (envs : ℕ → Env)
    → ((e : ℕ) → e < nenv → is_alive (envs e) ≡ false)
    → any_alive nenv 0 envs ≡ false
none_alive envs dead = elim (Bool-cases (any_alive nenv 0 envs)) [
  | inl a ↦
      let (e, lo, hi, alive) = any_alive_from nenv 0 envs a in
      elim (true≢false (sym alive ∙ dead e (omega arith))) [ ]
  | inr d ↦ d
]

abbrev halting : Kernel → Kernel
halting k = record k {
  cpus = update k.cpus k.cpunum (record { cpu_status = cpu_halted; cpu_env = none });
  cr3 = k.pm.kern_pgdir;
}

-- The state of a CPU that waits for an interrupt: no environment is current, the kernel's page
-- directory is in force, and the lock is free.
abbrev pub halted_state : Kernel → Kernel
halted_state k = unlocked (halting k)

-- With no RUNNABLE environment, a current one that is not RUNNING or none, and the lock held,
-- `sched_yield` halts the CPU if some environment is RUNNING or DYING: the CPU has no current
-- environment and the kernel's page directory, and the lock is released.
pub sched_yield-halts :
    (k : Kernel) (e : ℕ)
    → NoneRunnable k.envs
    → NothingToResume k
    → HasLock k
    → e < nenv
    → is_alive (k.envs e) ≡ true
    → sched_yield k ≡ exit Exit.halted (halted_state k)
unfolding sched_halt unlock_kernel
sched_yield-halts k e idle stop lock he alive =
    yield_none k idle
    ∙ yield_halts k (curenv k) stop
    ∙ if_true _ _ (any_alive_at nenv 0 k.envs e (omega arith) he alive)
    ∙ rw (unlock_runs (halting k) lock) refl

-- With no environment that is RUNNABLE, RUNNING or DYING, and a current one that is not RUNNING or
-- none, `sched_yield` enters the monitor and nothing changes: the lock stays as it is.
pub sched_yield-in_monitor :
    (k : Kernel)
    → ((e : ℕ) → e < nenv → is_alive (k.envs e) ≡ false)
    → NothingToResume k
    → sched_yield k ≡ exit Exit.in_monitor k
unfolding sched_halt
sched_yield-in_monitor k dead stop =
    yield_none k (λ e he r. dead-≢ (k.envs e) (dead e he) r)
    ∙ yield_halts k (curenv k) stop
    ∙ if_false _ _ (none_alive k.envs dead)
