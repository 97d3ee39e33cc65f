-- ===== src/Syscall/Memory/PageAlloc.antt =====
-- What `sys_page_alloc` of kern/syscall.c maps, counts and returns.
use challenge.Base.{
  ℕ, ◌^◌, ◌≤◌, ◌<◌, ◌≡◌, refl, ◌≢◌, sym, ◌∙◌, ap, subst, true, false, Option, none, some, List, [],
  ◌∷◌, arith, if◌then◌else◌, if_true, if_false, ◌⊎◌, inl, inr, ==_refl,
}
use challenge.Base.Run.{Run, ok, exit, Exit, Panic, Cmd, pure, and_then, ◌>>=◌}
use challenge.Mmu.{pgnum, pdx}
use challenge.Pmap.Pages.{Pmap, page_alloc, page_free, incref}
use challenge.Pmap.Tables.{Errno, is_present, page_insert}
use challenge.Pmap.FreeList.Alloc.{
  IsFreeList, Allocated, page_alloc-head, page_alloc-empty, set_page-IsFreeList,
}
use challenge.Pmap.Mapping.Walk.{HasTable}
use challenge.Pmap.Mapping.Edit.{entry_of, Mapped}
use challenge.Pmap.Mapping.Insert.{page_insert-unmapped, page_insert-no_mem, inserted_at}
use challenge.Env.State.{Kernel, curenv, lift, in_pmap, current}
use challenge.Env.Space.{in_space}
use challenge.Syscall.Envs.{neg}
use challenge.Syscall.Target.{Target, with_env-Target}
use challenge.Syscall.Memory.{bad_va, bad_perm, alloc_result, alloc_page, sys_page_alloc}

-- The part of `sys_page_alloc` after the environment is found.
abbrev alloc_at : ℕ → ℕ → ℕ → Cmd Kernel ℕ
alloc_at va perm e =
    if bad_va va
    then pure (neg Errno.inval)
    else if bad_perm perm
    then pure (neg Errno.inval)
    else (do p ← lift (page_alloc 1); alloc_page e va perm p)

-- `sys_page_alloc` for an environment that the caller may change returns -E_INVAL and changes
-- nothing, if the address is not below UTOP or not page-aligned, or the permissions lack PTE_U or
-- PTE_P.
pub sys_page_alloc-refuses :
    (k : Kernel) (c e envid va perm : ℕ)
    → curenv k ≡ some c
    → Target k c envid true e
    → (bad_va va ≡ true) ⊎ ((bad_va va ≡ false) × (bad_perm perm ≡ true))
    → sys_page_alloc envid va perm k ≡ ok (neg Errno.inval) k
unfolding sys_page_alloc
sys_page_alloc-refuses k c e envid va perm cur target bad =
    with_env-Target k c envid true e (alloc_at va perm) cur target ∙ elim bad [
      | inl v ↦ ap (λ (m : Cmd Kernel ℕ). m k) (if_true _ _ v)
      | inr (v, p) ↦
          ap (λ (m : Cmd Kernel ℕ). m k) (if_false _ _ v)
          ∙ ap (λ (m : Cmd Kernel ℕ). m k) (if_true _ _ p)
    ]

module _ (k : Kernel) (c e d envid va perm : ℕ) (cur : curenv k ≡ some c)
    (target : Target k c envid true e) (place : bad_va va ≡ false) (flags : bad_perm perm ≡ false)
    (space : (k.envs e).env_pgdir ≡ some d) where
  tries : sys_page_alloc envid va perm k ≡ (do p ← lift (page_alloc 1); alloc_page e va perm p) k
  unfolding sys_page_alloc
  tries =
      with_env-Target k c envid true e (alloc_at va perm) cur target
      ∙ ap (λ (m : Cmd Kernel ℕ). m k) (if_false _ _ place)
      ∙ ap (λ (m : Cmd Kernel ℕ). m k) (if_false _ _ flags)

  -- `sys_page_alloc` with valid arguments and no free page returns 4, the value of E_NO_MEM, which
  -- is not negative, and changes nothing.
  pub sys_page_alloc-no_page : IsFreeList k.pm [] → sys_page_alloc envid va perm k ≡ ok 4 k
  unfolding alloc_page
  sys_page_alloc-no_page f =
      tries
      ∙ ap (λ (r : Run Pmap (Option ℕ)). and_then (in_pmap r k) (alloc_page e va perm))
          (page_alloc-empty 1 k.pm f)

  module _ (p : ℕ) (ps : List ℕ) (f : IsFreeList k.pm (p ∷ ps)) where
    abbrev counted : Pmap → Kernel
    counted pm1 = record k { pm = incref p pm1 }

    inserts :
        (pm1 : Pmap)
        → Allocated 1 k.pm p ps pm1
        → (o : Option Errno) (pm : Pmap)
        → page_insert (current k) d p va perm (incref p pm1) ≡ ok o pm
        → sys_page_alloc envid va perm k ≡ alloc_result p o (record k { pm = pm })
    unfolding alloc_page
    inserts pm1 got o pm run =
        tries
        ∙ ap (λ (r : Run Pmap (Option ℕ)). and_then (in_pmap r k) (alloc_page e va perm)) got.runs
        ∙ in_space (k.envs e).env_pgdir d (counted pm1) (λ x. page_insert (current k) x p va perm)
            (alloc_result p) o pm space run

    -- `sys_page_alloc` with valid arguments and permissions below 2 ^ 12, with at most 2 ^ 20
    -- pages, at an address with a page table and nothing mapped, where the first free page is
    -- neither that table nor the directory: the call maps that page there, zeroed, returns 0 and
    -- changes no environment. The page has two references afterwards, one more than its mappings.
    pub sys_page_alloc-Mapped :
        (t : ℕ)
        → HasTable k.pm d va t
        → t ≢ p
        → d ≢ p
        → is_present (entry_of k.pm t va) ≡ false
        → k.pm.npages ≤ 2 ^ 20
        → perm < 2 ^ 12
        → (k' : Kernel) × (sys_page_alloc envid va perm k ≡ ok 0 k')
          × Mapped k'.pm d va t p
          × ((i : ℕ) → k'.pm.mem p i ≡ 0)
          × ((k'.pm.pages p).pp_ref ≡ 2)
          × (k'.envs ≡ k.envs)
    unfolding alloc_result
    sys_page_alloc-Mapped t table nt nd empty small low =
        let (pm1, got) = page_alloc-head 1 k.pm p ps f in
        let dir = got.memory d (pdx va) nd in
        let table1 : HasTable (incref p pm1) d va t = record {
          present = ap is_present dir ∙ table.present;
          entry = ap pgnum dir ∙ table.entry;
          below = omega (arith, got.size, table.below);
          apart = table.apart;
        } in
        let ins =
          page_insert-unmapped (current k) p perm table1 (omega (arith, got.size, small))
            (omega (arith, got.size, f.idle.0.0)) low (ap is_present (got.memory t _ nt) ∙ empty) in
        (
          record k { pm = inserted_at t va p perm (incref p pm1) },
          inserts pm1 got none _ ins.runs,
          ins.mapped,
          λ i.
              ins.entry.rest p i (inl (λ z. nt (sym z)))
              ∙ got.zeroed (λ z. absurd (omega (arith, z))) i,
          rw (==_refl p, got.unreferenced) refl,
          refl,
        )

    -- `sys_page_alloc` with valid arguments, at an address with no page table, while only one page
    -- is free, which is not the directory: the kernel panics in `page_free`, on the page that has
    -- been counted already.
    pub sys_page_alloc-panics :
        is_present (k.pm.mem d (pdx va)) ≡ false
        → d ≢ p
        → ps ≡ []
        → (k' : Kernel) × (sys_page_alloc envid va perm k
            ≡ exit (Exit.panicked Panic.page_free_ref) k')
    unfolding alloc_result page_free
    sys_page_alloc-panics missing nd last =
        let (pm1, got) = page_alloc-head 1 k.pm p ps f in
        let still = ap is_present (got.memory d (pdx va) nd) ∙ missing in
        let none_left : IsFreeList (incref p pm1) [] =
          subst (IsFreeList (incref p pm1)) last
            (set_page-IsFreeList pm1 p _ pm1.mem ps got.rest f.distinct.0) in
        (
          counted pm1,
          inserts pm1 got (some Errno.no_mem) (incref p pm1)
                (page_insert-no_mem (current k) (incref p pm1) d va p perm still none_left)
              ∙ rw (==_refl p, got.unreferenced) refl,
        )
