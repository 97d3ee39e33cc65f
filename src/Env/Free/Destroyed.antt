-- ===== src/Env/Free/Destroyed.antt =====
-- kern/env.c: what `env_destroy` of the current environment leaves.
use challenge.Base.{
  ℕ, ◌≡◌, ◌≢◌, refl, sym, ◌∙◌, ap, subst, Bool, true, false, not, ◌&&◌, Option, none, some, arith,
  if◌then◌else◌, update, update_self, update_ne, ==_refl, if_false, if_true,
}
use native.Mathlib.Decide.{ℕ_discrete}
use challenge.Base.Run.{Run, ok, exit, Exit, and_then, modify, ◌>>=◌, ◌>>◌}
use challenge.Pmap.Pages.{Pmap}
use challenge.Env.State.{
  Env, CpuInfo, Kernel, curenv, set_curenv, deref, lift, current, eq_opt, env_free_status, envx,
}
use challenge.Env.Space.{in_space}
use challenge.Env.Switch.Resume.{HasLock, started}
use challenge.Env.Free.{free_vm, release_env, env_free, env_destroy}
use challenge.Sched.{sched_yield}
use challenge.Sched.Choice.{FirstRunnable, looked_at, offset_of, sched_yield-FirstRunnable}

-- The environment `c` is free, without an address space and first on the free list; the pages are as giving up the
-- address space left them; this CPU runs `e` in its address space `d`, with the lock free; no other environment changes.
pub record Destroyed (c e d : ℕ) (k : Kernel) (pm' : Pmap) (k' : Kernel) : Type 0 where
  pub status : (k'.envs c).env_status ≡ env_free_status
  pub no_space : (k'.envs c).env_pgdir ≡ none
  pub link : (k'.envs c).env_link ≡ k.env_free_list
  pub first_free : k'.env_free_list ≡ some c
  pub memory : k'.pm ≡ pm'
  pub current_env : curenv k' ≡ some e
  pub running : k'.envs e ≡ started k.cpunum (k.envs e)
  pub address_space : k'.cr3 ≡ d
  pub others : (i : ℕ) → i ≢ c → i ≢ e → k'.envs i ≡ k.envs i
  pub released : k'.kernel_lock.locked ≡ 0

-- A free environment more leaves the first RUNNABLE one as it is.
FirstRunnable-free :
    (envs : ℕ → Env) (c i e : ℕ) (v : Env)
    → v.env_status ≡ env_free_status
    → e ≢ c
    → FirstRunnable envs 0 i e
    → FirstRunnable (update envs c v) 0 i e
FirstRunnable-free envs c i e v free ne h = record {
  inside = h.inside;
  place = h.place;
  runnable = ap (λ (x : Env). x.env_status) (update_ne envs c e v ne) ∙ h.runnable;
  skipped = λ j lt q. elim (ℕ_discrete (looked_at 0 j) c) [
    | yes at ↦ absurd (
        omega (
          arith,
          free,
          sym (ap (λ (x : Env). x.env_status) (ap (update envs c v) at ∙ update_self envs c v)) ∙ q,
        ))
    | no off ↦
        h.skipped j lt
          (sym (ap (λ (x : Env). x.env_status) (update_ne envs c (looked_at 0 j) v off)) ∙ q)
  ];
}

and_not : (b c : Bool) → c ≡ true → (b && not c) ≡ false
and_not true true h = refl
and_not false true h = refl
and_not true false h = absurd (cc)
and_not false false h = refl

module _ (k : Kernel) (c d : ℕ) (pm' : Pmap) (cur : curenv k ≡ some c)
    (space : (k.envs c).env_pgdir ≡ some d)
    (gives_up : free_vm (current k) d k.pm ≡ ok tt pm') where
  abbrev freed : Kernel
  freed = release_env c (record k { cr3 = k.pm.kern_pgdir; pm = pm' })

  is_current : eq_opt (curenv k) c ≡ true
  is_current = ap (λ o. eq_opt o c) cur ∙ ==_refl c

  env_free-freed : env_free c k ≡ ok tt freed
  unfolding env_free
  env_free-freed =
      ap
        (λ (k1 : Kernel).
          (do
            pgdir ← deref (k.envs c).env_pgdir
            lift (free_vm (current k) pgdir)
            modify (release_env c))
            k1)
        (if_true _ _ is_current)
      ∙ in_space (k.envs c).env_pgdir d (record k { cr3 = k.pm.kern_pgdir })
          (λ x. free_vm (current k) x) (λ _. modify (release_env c)) tt pm' space gives_up

  yields : env_destroy c k ≡ sched_yield (set_curenv none freed)
  unfolding env_destroy
  yields =
      if_false _ _ (and_not _ _ is_current)
      ∙ ap
          (λ (r : Run Kernel (Unit {0})).
            and_then r
              (λ _ s. if eq_opt (curenv s) c then sched_yield (set_curenv none s) else ok tt s))
          env_free-freed
      ∙ if_true _ _ is_current

  -- Where the address space can be given up and `e` is the first RUNNABLE environment from slot 0 on
  pub env_destroy-Destroyed :
      (i e d' : ℕ)
      → FirstRunnable k.envs 0 i e
      → e ≢ c
      → (k.envs e).env_pgdir ≡ some d'
      → HasLock k
      → (k' : Kernel) × (env_destroy c k ≡ exit (Exit.resumed e) k') × Destroyed c e d' k pm' k'
  env_destroy-Destroyed i e d' first ne space' lock =
      let s = set_curenv none freed in
      let none_current : curenv s ≡ none =
        ap (λ (x : CpuInfo). x.cpu_env) (update_self k.cpus k.cpunum _) in
      let from_zero : offset_of s ≡ 0 =
        ap (λ (o : Option ℕ). elim o [ none ↦ 0 | some x ↦ envx (s.envs x).env_id ]) none_current in
      let first' : FirstRunnable s.envs (offset_of s) i e =
        subst (λ o. FirstRunnable s.envs o i e) (sym from_zero)
          (FirstRunnable-free k.envs c i e _ refl ne first) in
      let same : s.envs e ≡ k.envs e = update_ne k.envs c e _ ne in
      let not_e : curenv s ≢ some e = λ q. absurd (cc (none_current, q)) in
      let (k', run, w) =
        sched_yield-FirstRunnable s i e d' first' not_e
          (ap (λ (x : Env). x.env_pgdir) same ∙ space') lock in
      let no_other : (x : ℕ) → curenv s ≢ some x = λ x q. absurd (cc (none_current, q)) in
      let at_c : k'.envs c ≡ s.envs c = w.others c (λ q. ne (sym q)) (no_other c) in
      let here : s.envs c ≡ record (k.envs c) {
        env_pgdir = none;
        env_status = env_free_status;
        env_link = k.env_free_list;
      } =
        update_self k.envs c _ in
      (
        k',
        yields ∙ run,
        record {
          status = ap (λ (x : Env). x.env_status) (at_c ∙ here);
          no_space = ap (λ (x : Env). x.env_pgdir) (at_c ∙ here);
          link = ap (λ (x : Env). x.env_link) (at_c ∙ here);
          first_free = w.free_list;
          memory = w.memory;
          current_env = w.current;
          running = w.running ∙ ap (started k.cpunum) same;
          address_space = w.address_space;
          others = λ x nc nx. w.others x nx (no_other x) ∙ update_ne k.envs c x _ nc;
          released = w.released;
        },
      )
