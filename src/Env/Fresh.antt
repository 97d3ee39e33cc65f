-- ===== src/Env/Fresh.antt =====
-- What `env_alloc` of kern/env.c makes of a free environment and a free page.
use challenge.Base.{
  ℕ, ◌*◌, ◌^◌, ◌<◌, ◌≡◌, refl, ◌≢◌, sym, ◌∙◌, ap, bit_or, Bool, false, none, some, List, [], ◌∷◌,
  arith, inr, ==_refl, ==_ne, update, write_other, write_same,
}
use challenge.Base.Run.{ok}
use challenge.Mmu.{pdx, uvpt, pte_p, pte_u}
use challenge.Pmap.Pages.{Pmap, incref}
use challenge.Pmap.Tables.{Errno}
use challenge.Pmap.FreeList.Alloc.{
  IsFreeList, Allocated, page_alloc-head, page_alloc-empty, set_page-IsFreeList, kva_ok,
}
use challenge.Env.State.{
  Upcall, Env, Kernel, nenv, envx, env_runnable, curenv, set_env, done, fail, envid2env,
}
use challenge.Env.Alloc.{env_alloc, env_setup_vm, generation, fill_pgdir, initial_tf, new_env}
use challenge.Env.Ids.{new_id, Accepts, envid2env_lem}

-- The new environment `e` with the page directory `p`, and what stays as it was.
pub record NewEnv (parent e p : ℕ) (ps : List ℕ) (k k' : Kernel) : Type 0 where
  pub runs : env_alloc parent k ≡ ok (done e) k'
  pub id : (k'.envs e).env_id ≡ bit_or (generation (k.envs e).env_id) e
  pub parent_id : (k'.envs e).env_parent_id ≡ parent
  pub status : (k'.envs e).env_status ≡ env_runnable
  pub frame : (k'.envs e).env_tf ≡ initial_tf
  pub no_upcall : (u : Upcall) → (k'.envs e).env_upcall u ≡ 0
  pub not_recving : (k'.envs e).env_ipc_recving ≡ false
  pub pgdir : (k'.envs e).env_pgdir ≡ some p
  pub next_free : k'.env_free_list ≡ (k.envs e).env_link
  pub free_pages : IsFreeList k'.pm ps
  pub counted : (k'.pm.pages p).pp_ref ≡ 1
  pub kernel_part : (i : ℕ) → i ≢ pdx uvpt → k'.pm.mem p i ≡ k.pm.mem k.pm.kern_pgdir i
  pub self_map : k'.pm.mem p (pdx uvpt) ≡ bit_or (bit_or (p * 2 ^ 12) pte_p) pte_u
  pub other_envs : (i : ℕ) → i ≢ e → k'.envs i ≡ k.envs i
  pub same_cpus : k'.cpus ≡ k.cpus
  pub same_cpu : k'.cpunum ≡ k.cpunum

module _ (parent : ℕ) (k : Kernel) (e p : ℕ) (ps : List ℕ) (free : k.env_free_list ≡ some e)
    (f : IsFreeList k.pm (p ∷ ps)) (apart : p ≢ k.pm.kern_pgdir) where
  abbrev filled : Pmap → Kernel
  filled pm1 = record (set_env e (record (k.envs e) { env_pgdir = some p }) k) {
    pm = fill_pgdir p (incref p pm1);
  }

  setup_runs :
      (pm1 : Pmap) → Allocated 1 k.pm p ps pm1 → env_setup_vm e k ≡ ok (done tt) (filled pm1)
  unfolding env_setup_vm
  setup_runs pm1 got =
      rw
        (
          got.runs,
          kva_ok pm1 p (omega (arith, got.size, f.idle.0.0)) (omega (arith, got.size, f.fits)),
        )
        refl

  abbrev made : Pmap → Kernel
  made pm1 = record (set_env e (new_env e parent ((filled pm1).envs e)) (filled pm1)) {
    env_free_list = ((filled pm1).envs e).env_link;
  }

  alloc_runs :
      (pm1 : Pmap) → Allocated 1 k.pm p ps pm1 → env_alloc parent k ≡ ok (done e) (made pm1)
  unfolding env_alloc
  alloc_runs pm1 got = simp (free, setup_runs pm1 got) refl

  -- Given a free environment and a free page other than the kernel's page directory, `env_alloc`
  -- succeeds with that environment: RUNNABLE, with a new id, no upcalls, the initial registers,
  -- and the page as its directory, which is a copy of the kernel's but for its entry for itself;
  -- no other environment and no CPU changes.
  pub env_alloc-NewEnv : (k' : Kernel) × NewEnv parent e p ps k k'
  env_alloc-NewEnv =
      let (pm1, got) = page_alloc-head 1 k.pm p ps f in
      (
        made pm1,
        record {
          runs = alloc_runs pm1 got;
          id = rw (==_refl e) refl;
          parent_id = rw (==_refl e) refl;
          status = rw (==_refl e) refl;
          frame = rw (==_refl e) refl;
          no_upcall = λ u. rw (==_refl e) refl;
          not_recving = rw (==_refl e) refl;
          pgdir = rw (==_refl e) refl;
          next_free = rw (==_refl e) refl;
          free_pages = set_page-IsFreeList pm1 p _ (made pm1).pm.mem ps got.rest f.distinct.0;
          counted = rw (==_refl p, got.unreferenced) refl;
          kernel_part = λ i ne.
              write_other (update pm1.mem p (pm1.mem pm1.kern_pgdir)) p (pdx uvpt) _ p i (inr ne)
              ∙ rw (==_refl p) (
                  ap (λ (g : ℕ). pm1.mem g i) got.keeps
                  ∙ got.memory k.pm.kern_pgdir i (λ c. apart (sym c)));
          self_map = write_same (update pm1.mem p (pm1.mem pm1.kern_pgdir)) p (pdx uvpt) _;
          other_envs = λ i ne. rw (==_ne i e ne) refl;
          same_cpus = refl;
          same_cpu = refl;
        },
      )

-- With no free environment, or with no free page, `env_alloc` fails with the error for it and no
-- environment and no page has changed.
pub env_alloc-fails :
    (parent : ℕ) (k : Kernel)
    → (k.env_free_list ≡ none → env_alloc parent k ≡ ok (fail Errno.no_free_env) k)
      × ((e : ℕ)
          → k.env_free_list ≡ some e
          → IsFreeList k.pm []
          → env_alloc parent k ≡ ok (fail Errno.no_mem) k)
unfolding env_alloc
env_alloc-fails parent k =
    ((λ n. rw n refl), (λ e free f. rw (free, page_alloc-empty 1 k.pm f) refl))

-- The caller, in another slot, finds the environment that it has just made with `env_alloc` in a
-- slot that had a 32-bit id: under the new id, which is not the old one, `envid2env` gives that
-- slot, with the permission check too.
pub env_alloc-envid2env :
    (k k' : Kernel) (c e p : ℕ) (ps : List ℕ) (checkperm : Bool)
    → NewEnv (k.envs c).env_id e p ps k k'
    → curenv k ≡ some c
    → c ≢ e
    → e < nenv
    → (k.envs e).env_id < 2 ^ 32
    → (envid2env (k'.envs e).env_id checkperm k' ≡ ok (done (some e)) k')
      × ((k'.envs e).env_id ≢ (k.envs e).env_id)
env_alloc-envid2env k k' c e p ps checkperm n cur ne lt w =
    let (pos, top, index, differs) = new_id (k.envs e).env_id e w lt in
    let id = (k'.envs e).env_id in
    let at : envx id ≡ e = ap envx n.id ∙ index in
    let cur' : curenv k' ≡ some c = rw (n.same_cpus, n.same_cpu) cur in
    let accepts : Accepts k' c id checkperm = record {
      in_use = rw at (λ z. absurd (omega (arith, n.status, z)));
      current_id = ap (λ (i : ℕ). (k'.envs i).env_id) at;
      permitted = λ _. inr (
          ap (λ (i : ℕ). (k'.envs i).env_parent_id) at
          ∙ n.parent_id
          ∙ sym (ap (λ (x : Env). x.env_id) (n.other_envs c ne)));
    } in
    (
      (envid2env_lem k' c id checkperm cur').1 (λ z. absurd (omega (arith, n.id, pos, z))) accepts
          ∙ ap (λ (i : ℕ). ok (done (some i)) k') at,
      λ z. differs (sym n.id ∙ z),
    )
