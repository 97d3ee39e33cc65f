-- ===== src/Examples/Scheduling.antt =====
-- The choice of an environment and the return to user mode on the small machine.
use challenge.Base.{ℕ, ◌≡◌, refl, ◌≢◌, subst, false, Option, some, [], ◌∷◌, arith}
use challenge.Base.Run.{exit, Exit}
use challenge.Env.State.{Kernel, env_runnable}
use challenge.Env.Switch.{env_run}
use challenge.Env.Switch.Resume.{HasLock, Switched, env_run-Switched}
use challenge.Spinlock.{holding}
use challenge.Sched.{sched_yield}
use challenge.Sched.Choice.{looked_at, FirstRunnable, NoneRunnable, sched_yield-FirstRunnable}
use challenge.Env.Fresh.{NewEnv, env_alloc-NewEnv}
use challenge.Examples.{two_envs, kernel, machine-IsFreeList}

abbrev state : ℕ → ℕ → Option ℕ → Kernel
state s0 s1 cur = kernel (two_envs s0 s1 false) 1 cur

has_lock : (s0 s1 : ℕ) (cur : Option ℕ) → HasLock (state s0 s1 cur)
unfolding holding
has_lock s0 s1 cur = refl

env_run-Switched_example :
    (k' : Kernel) × (env_run 1 (state 3 2 (some 0)) ≡ exit (Exit.resumed 1) k')
    × Switched 1 4 (state 3 2 (some 0)) k'
env_run-Switched_example =
    env_run-Switched (state 3 2 (some 0)) 1 4 (λ p. absurd (cc)) refl (has_lock 3 2 (some 0))

second : FirstRunnable (two_envs 3 2 false) 0 1 1
second = record {
  inside = omega arith;
  place = refl;
  runnable = refl;
  skipped = λ j lt.
      subst (λ (x : ℕ). (two_envs 3 2 false (looked_at 0 x)).env_status ≢ env_runnable) {x = 0}
        {y = j} (omega arith) (omega arith);
}

sched_yield-FirstRunnable_example :
    (k' : Kernel) × (sched_yield (state 3 2 (some 0)) ≡ exit (Exit.resumed 1) k')
    × Switched 1 4 (state 3 2 (some 0)) k'
sched_yield-FirstRunnable_example =
    sched_yield-FirstRunnable (state 3 2 (some 0)) 1 1 4 second (λ p. absurd (cc)) refl
      (has_lock 3 2 (some 0))

none_runnable :
    (s0 s1 : ℕ) → s0 ≢ env_runnable → s1 ≢ env_runnable → NoneRunnable (two_envs s0 s1 false)
none_runnable s0 s1 n0 n1 e lt = ground arith

-- Environment 1 runs on another CPU.
env_alloc-NewEnv_example : (k' : Kernel) × NewEnv 0x1000 2 10 (11 ∷ 12 ∷ []) (state 3 2 (some 0)) k'
env_alloc-NewEnv_example =
    env_alloc-NewEnv 0x1000 (state 3 2 (some 0)) 2 10 (11 ∷ 12 ∷ []) refl machine-IsFreeList
      (omega arith)

abbrev forked : Kernel
forked =
    (env_alloc-NewEnv 0x1000 (state 3 2 (some 0)) 2 10 (11 ∷ 12 ∷ []) refl machine-IsFreeList
      (omega arith)).0
