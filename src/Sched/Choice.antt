-- ===== src/Sched/Choice.antt =====
-- Which environment `sched_yield` of kern/sched.c resumes.
use challenge.Base.{
  ℕ, zero, suc, ◌+◌, ◌-◌, ◌%◌, ◌<◌, ◌≡◌, refl, ◌≢◌, sym, subst, ◌∙◌, ap, Option, none, some, arith,
  ◌==◌, Bool-cases, ◌⊎◌, inl, inr, ==_refl, ==_iff, ==_false→≢,
}
use native.Mathlib.Decide.{dec_lt, ℕ_discrete}
use challenge.Base.Run.{exit, Exit}
use challenge.Env.State.{Env, Kernel, nenv, envx, env_runnable, curenv, set_env}
use challenge.Env.Switch.{env_run}
use challenge.Env.Switch.Resume.{
  HasLock, unlocked, Switched, on_cpu, env_run-Switched, env_run-current,
}
use challenge.Sched.{next_runnable, run_found, search_offset, sched_yield}

-- The environment that round `j` of the search looks at.
abbrev pub looked_at : ℕ → ℕ → ℕ
looked_at offset j = (j + offset) % nenv

-- `e` is the first RUNNABLE environment in circular order from `offset` on, found after `i` others.
pub record FirstRunnable (envs : ℕ → Env) (offset i e : ℕ) : Type 0 where
  pub inside : i < nenv
  pub place : e ≡ looked_at offset i
  pub runnable : (envs e).env_status ≡ env_runnable
  pub skipped : (j : ℕ) → j < i → (envs (looked_at offset j)).env_status ≢ env_runnable

abbrev pub NoneRunnable : (ℕ → Env) → Type 0
NoneRunnable envs = (e : ℕ) → e < nenv → (envs e).env_status ≢ env_runnable

extend :
    (offset i : ℕ) (envs : ℕ → Env)
    → ((j : ℕ) → j < i → (envs (looked_at offset j)).env_status ≢ env_runnable)
    → (envs (looked_at offset i)).env_status ≢ env_runnable
    → (j : ℕ) → j < i + 1
    → (envs (looked_at offset j)).env_status ≢ env_runnable
extend offset i envs before here j h = elim (ℕ_discrete j i) [
  | yes e ↦ subst (λ (x : ℕ). (envs (looked_at offset x)).env_status ≢ env_runnable) (sym e) here
  | no n ↦ before j (omega arith)
]

search :
    (n i offset : ℕ) (envs : ℕ → Env)
    → i + n ≡ nenv
    → ((j : ℕ) → j < i → (envs (looked_at offset j)).env_status ≢ env_runnable)
    → ((r e : ℕ) × (next_runnable n i offset envs ≡ some e) × FirstRunnable envs offset r e)
      ⊎ ((next_runnable n i offset envs ≡ none)
          × ((j : ℕ) → j < nenv → (envs (looked_at offset j)).env_status ≢ env_runnable))
unfolding next_runnable
search zero i offset envs total before = inr (refl, λ j h. before j (omega arith))
search (suc n) i offset envs total before =
    elim (Bool-cases ((envs ((i + offset) % nenv)).env_status == env_runnable)) [
      | inl e ↦ inl (
        i,
        looked_at offset i,
        rw e refl,
        record {
          inside = omega arith;
          place = refl;
          runnable = (==_iff _ env_runnable).0 e;
          skipped = before;
        },
      )
      | inr e ↦ rw e (
          search n (i + 1) offset envs (omega arith)
            (extend offset i envs before (==_false→≢ _ env_runnable e)))
    ]

offset_small : (o : Option ℕ) (k : Kernel) → search_offset o k < nenv
unfolding search_offset
offset_small none k = omega arith
offset_small (some c) k = omega arith

-- The rounds reach every environment.
all_looked_at :
    (offset e : ℕ) → offset < nenv → e < nenv → looked_at offset ((e + (nenv - offset)) % nenv) ≡ e
all_looked_at offset e ho he = omega arith

same_round :
    (envs : ℕ → Env) (offset i e r f : ℕ)
    → FirstRunnable envs offset i e
    → FirstRunnable envs offset r f
    → r ≡ i
same_round envs offset i e r f a b = elim (dec_lt r i) [
  | yes l ↦ elim (a.skipped r l (ap (λ x. (envs x).env_status) (sym b.place) ∙ b.runnable)) [ ]
  | no g ↦ elim (dec_lt i r) [
    | yes l ↦ elim (b.skipped i l (ap (λ x. (envs x).env_status) (sym a.place) ∙ a.runnable)) [ ]
    | no g' ↦ omega arith
  ]
]

search_first :
    (envs : ℕ → Env) (offset i e : ℕ)
    → FirstRunnable envs offset i e
    → next_runnable nenv 0 offset envs ≡ some e
search_first envs offset i e first = elim (search nenv 0 offset envs refl (λ j h. omega arith)) [
  | inl (r, f, found, at) ↦
      found
      ∙ ap some (
          at.place
          ∙ ap (looked_at offset) (same_round envs offset i e r f first at)
          ∙ sym first.place)
  | inr (found, nowhere) ↦
      elim (nowhere i first.inside
        (ap (λ x. (envs x).env_status) (sym first.place) ∙ first.runnable)) [ ]
]

pub search_none :
    (envs : ℕ → Env) (offset : ℕ) → NoneRunnable envs → next_runnable nenv 0 offset envs ≡ none
search_none envs offset idle = elim (search nenv 0 offset envs refl (λ j h. omega arith)) [
  | inl (r, f, found, at) ↦
      elim (idle f (subst (λ x. x < nenv) (sym at.place) (omega arith)) at.runnable) [ ]
  | inr (found, nowhere) ↦ found
]

abbrev pub offset_of : Kernel → ℕ
offset_of k = elim (curenv k) [ none ↦ 0 | some c ↦ envx (k.envs c).env_id ]

pub offset_eq :
    (o : Option ℕ) (k : Kernel)
    → search_offset o k ≡ elim o [ none ↦ 0 | some c ↦ envx (k.envs c).env_id ]
unfolding search_offset
offset_eq none k = refl
offset_eq (some c) k = refl

yield_first :
    (k : Kernel) (i e : ℕ) → FirstRunnable k.envs (offset_of k) i e → sched_yield k ≡ env_run e k
unfolding sched_yield run_found
yield_first k i e first =
    ap (λ (o : ℕ). run_found (next_runnable nenv 0 o k.envs) k) (offset_eq (curenv k) k)
    ∙ ap (λ (o : Option ℕ). run_found o k) (search_first k.envs (offset_of k) i e first)

-- `sched_yield`, with the lock held, resumes the first RUNNABLE environment in circular order from
-- the slot of the current environment on (from slot 0 where there is none), if it has an address
-- space and is not the current one itself: it then runs on this CPU in its address space, the
-- environment that was RUNNING is RUNNABLE, no other changes, and the lock is released.
pub sched_yield-FirstRunnable :
    (k : Kernel) (i e d : ℕ)
    → FirstRunnable k.envs (offset_of k) i e
    → curenv k ≢ some e
    → (k.envs e).env_pgdir ≡ some d
    → HasLock k
    → (k' : Kernel) × (sched_yield k ≡ exit (Exit.resumed e) k') × Switched e d k k'
sched_yield-FirstRunnable k i e d first other space lock =
    let (k', run, after) = env_run-Switched k e d other space lock in
    (k', yield_first k i e first ∙ run, after)

-- Where the first RUNNABLE environment from the slot of the current one on is the current one,
-- `sched_yield`, with the lock held, resumes it and releases the lock, and its status stays
-- RUNNABLE while it runs.
pub sched_yield-current_runnable :
    (k : Kernel) (i e : ℕ)
    → FirstRunnable k.envs (offset_of k) i e
    → curenv k ≡ some e
    → HasLock k
    → (k' : Kernel) × (sched_yield k ≡ exit (Exit.resumed e) k')
      × ((k'.envs e).env_status ≡ env_runnable)
      × (k'.kernel_lock.locked ≡ 0)
sched_yield-current_runnable k i e first cur lock = (
  set_env e (on_cpu k.cpunum (k.envs e)) (unlocked k),
  yield_first k i e first ∙ env_run-current k e cur lock,
  rw (==_refl e) first.runnable,
  refl,
)
