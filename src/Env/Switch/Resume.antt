-- ===== src/Env/Switch/Resume.antt =====
-- What `env_run` of kern/env.c leaves when it resumes an environment.
use challenge.Base.{
  ℕ, ◌+◌, ◌%◌, ◌^◌, ◌≡◌, refl, ◌≢◌, sym, ◌∙◌, ap, true, false, Option, none, some, ◌==◌,
  if◌then◌else◌, Bool-cases, inl, inr, update, update_self, ==_refl, ==_ne,
}
use challenge.Base.Run.{ok, exit, Exit}
use challenge.Spinlock.{holding}
use challenge.Env.State.{
  Env, CpuInfo, Kernel, env_runnable, env_running, curenv, set_env, eq_opt, unlock_kernel,
}
use challenge.Env.Switch.{pop_tf, preempt, enter, load_cr3, switch_to, env_run, env_pop_tf}

-- This CPU holds the big kernel lock.
abbrev pub HasLock : Kernel → Type 0
HasLock k = holding k.cpunum k.kernel_lock ≡ true

-- The lock is free.
abbrev pub unlocked : Kernel → Kernel
unlocked k = record k { kernel_lock = record { locked = 0; cpu = none } }

pub unlock_runs : (k : Kernel) → HasLock k → unlock_kernel k ≡ ok tt (unlocked k)
unfolding unlock_kernel
unlock_runs k h = rw h refl

-- The environment that leaves the CPU: RUNNABLE if it was RUNNING.
abbrev pub yielded : Env → Env
yielded e = if e.env_status == env_running then record e { env_status = env_runnable } else e

abbrev pub on_cpu : ℕ → Env → Env
on_cpu me e = record e { env_cpunum = me }

abbrev pub started : ℕ → Env → Env
started me e = record e {
  env_status = env_running;
  env_runs = (e.env_runs + 1) % 2 ^ 32;
  env_cpunum = me;
}

-- The state in user mode of the environment `e`, after another one or none was current.
pub record Switched (e d : ℕ) (k k' : Kernel) : Type 0 where
  pub current : curenv k' ≡ some e
  pub running : k'.envs e ≡ started k.cpunum (k.envs e)
  pub address_space : k'.cr3 ≡ d
  pub previous : (c : ℕ) → curenv k ≡ some c → k'.envs c ≡ yielded (k.envs c)
  pub others : (i : ℕ) → i ≢ e → curenv k ≢ some i → k'.envs i ≡ k.envs i
  pub other_cpus : (c : ℕ) → c ≢ k.cpunum → k'.cpus c ≡ k.cpus c
  pub released : k'.kernel_lock.locked ≡ 0
  pub memory : k'.pm ≡ k.pm
  pub free_list : k'.env_free_list ≡ k.env_free_list

-- The environments after the first step of `env_run`.
abbrev preempted : Option ℕ → (ℕ → Env) → ℕ → Env
preempted none envs = envs
preempted (some c) envs =
    if (envs c).env_status == env_running
    then update envs c (record (envs c) { env_status = env_runnable })
    else envs

preempt_eq : (o : Option ℕ) (k : Kernel) → preempt o k ≡ record k { envs = preempted o k.envs }
unfolding preempt
preempt_eq none k = refl
preempt_eq (some c) k = elim (Bool-cases ((k.envs c).env_status == env_running)) [
  | inl e ↦ rw e refl
  | inr e ↦ rw e refl
]

preempted_self : (c : ℕ) (envs : ℕ → Env) → preempted (some c) envs c ≡ yielded (envs c)
preempted_self c envs = elim (Bool-cases ((envs c).env_status == env_running)) [
  | inl e ↦ rw (e, ==_refl c) refl
  | inr e ↦ rw e refl
]

preempted_ne : (o : Option ℕ) (envs : ℕ → Env) (i : ℕ) → o ≢ some i → preempted o envs i ≡ envs i
preempted_ne none envs i n = refl
preempted_ne (some c) envs i n = elim (Bool-cases ((envs c).env_status == env_running)) [
  | inl e ↦ rw (e, ==_ne i c (λ q. n (ap some (sym q)))) refl
  | inr e ↦ rw e refl
]

not_eq_opt : (o : Option ℕ) (e : ℕ) → o ≢ some e → eq_opt o e ≡ false
not_eq_opt none e n = refl
not_eq_opt (some c) e n = ==_ne c e (λ q. n (ap some q))

module _ (k : Kernel) (e d : ℕ) where
  abbrev P : ℕ → Env
  P = preempted (curenv k) k.envs

  abbrev in_force : Kernel
  in_force = record (enter e (record k { envs = P })) { cr3 = d }

  abbrev resumed_state : Kernel
  resumed_state = set_env e (record (in_force.envs e) { env_cpunum = k.cpunum }) (unlocked in_force)

  module _ (other : curenv k ≢ some e) (space : (k.envs e).env_pgdir ≡ some d)
      (lock : HasLock k) where
    same_space : ((enter e (record k { envs = P })).envs e).env_pgdir ≡ some d
    same_space =
        rw (==_refl e)
          (ap (λ (x : Env). x.env_pgdir) (preempted_ne (curenv k) k.envs e other) ∙ space)

    switch_runs : switch_to e k ≡ ok tt in_force
    unfolding switch_to
    switch_runs =
        ap (λ (s : Kernel). load_cr3 ((enter e s).envs e).env_pgdir (enter e s))
          (preempt_eq (curenv k) k)
        ∙ ap (λ (o : Option ℕ). load_cr3 o (enter e (record k { envs = P }))) same_space

    now_current : curenv in_force ≡ some e
    now_current = ap (λ (x : CpuInfo). x.cpu_env) (update_self k.cpus k.cpunum _)

    pop_runs : env_pop_tf (unlocked in_force) ≡ exit (Exit.resumed e) resumed_state
    unfolding env_pop_tf
    pop_runs = ap (λ (o : Option ℕ). pop_tf o (unlocked in_force)) now_current

    not_self : eq_opt (curenv k) e ≡ false
    not_self = not_eq_opt (curenv k) e other

    run_switch : env_run e k ≡ exit (Exit.resumed e) resumed_state
    unfolding env_run
    run_switch = rw (not_self, switch_runs, unlock_runs in_force lock, pop_runs) refl

    started_env : resumed_state.envs e ≡ started k.cpunum (k.envs e)
    started_env = rw (==_refl e) (ap (started k.cpunum) (preempted_ne (curenv k) k.envs e other))

    previous_env : (c : ℕ) → curenv k ≡ some c → resumed_state.envs c ≡ yielded (k.envs c)
    previous_env c cur =
        let ne : c ≢ e = λ q. other (cur ∙ ap some q) in
        rw (==_ne c e ne)
          (ap (λ (o : Option ℕ). preempted o k.envs c) cur ∙ preempted_self c k.envs)

    -- `env_run` of an environment with an address space, other than the current one, on a CPU that
    -- holds the lock, resumes it: it is RUNNING on this CPU, in its own address space; the
    -- environment that was current is RUNNABLE if it was RUNNING, no other environment, no other
    -- CPU and no memory changes, and the lock is released.
    pub env_run-Switched :
        (k' : Kernel) × (env_run e k ≡ exit (Exit.resumed e) k') × Switched e d k k'
    env_run-Switched = (
      resumed_state,
      run_switch,
      record {
        current = now_current;
        running = started_env;
        address_space = refl;
        previous = λ c cur. previous_env c cur;
        others = λ i ne cur. rw (==_ne i e ne) (preempted_ne (curenv k) k.envs i cur);
        other_cpus = λ c ne. rw (==_ne c k.cpunum ne) refl;
        released = refl;
        memory = refl;
        free_list = refl;
      },
    )

here : (k : Kernel) (e : ℕ) → curenv k ≡ some e → eq_opt (curenv k) e ≡ true
here k e cur = ap (λ (o : Option ℕ). eq_opt o e) cur ∙ ==_refl e

pop_current :
    (k : Kernel) (e : ℕ)
    → curenv k ≡ some e
    → env_pop_tf (unlocked k)
      ≡ exit (Exit.resumed e) (set_env e (on_cpu k.cpunum (k.envs e)) (unlocked k))
unfolding env_pop_tf
pop_current k e cur = ap (λ (o : Option ℕ). pop_tf o (unlocked k)) cur

-- `env_run` of the current environment changes no status: it returns to user mode with the status it
-- had, and only notes the CPU and releases the lock.
pub env_run-current :
    (k : Kernel) (e : ℕ)
    → curenv k ≡ some e
    → HasLock k
    → env_run e k ≡ exit (Exit.resumed e) (set_env e (on_cpu k.cpunum (k.envs e)) (unlocked k))
unfolding env_run
env_run-current k e cur lock = rw (here k e cur, unlock_runs k lock, pop_current k e cur) refl
