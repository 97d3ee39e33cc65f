-- ===== src/Env/Free.antt =====
-- kern/env.c: `env_free` and `env_destroy`; kern/pmap.c: `user_mem_assert`.
pub mod Destroyed
use challenge.Base.{
  ℕ, zero, suc, ◌+◌, ◌*◌, ◌^◌, bit_or, not, ◌&&◌, Option, none, some, ◌==◌, if◌then◌else◌,
}
use challenge.Base.Run.{ok, Cmd, pure, modify, ◌>>=◌, ◌>>◌}
use challenge.Mmu.{pdx, utop, pte_addr, pte_u}
use challenge.Pmap.Pages.{Pmap, kaddr, pa2page, page_decref, write_word, read_word}
use challenge.Pmap.Tables.{Errno, Current, is_present, page_remove}
use challenge.Pmap.Access.{user_mem_check}
use challenge.Env.State.{
  Kernel, env_free_status, env_dying, env_running, curenv, set_curenv, set_env, eq_opt, deref, lift,
  current,
}
use challenge.Sched.{sched_yield}

-- `PGADDR(pdeno, pteno, 0)`
abbrev pgaddr : ℕ → ℕ → ℕ
pgaddr d t = bit_or (d * 2 ^ 22) (t * 2 ^ 12)

-- `n` rounds of the loop over the entries of the page table in page `pt`, from entry `pteno`
unmap_entries : ℕ → ℕ → Current → ℕ → ℕ → ℕ → Cmd Pmap (Unit {0})
unfolding page_remove
unmap_entries zero pteno cur pgdir pdeno pt = pure tt
unmap_entries (suc n) pteno cur pgdir pdeno pt =
    let rest = unmap_entries n (pteno + 1) cur pgdir pdeno pt in
    λ pm.
      ((if is_present (read_word pm pt pteno)
            then page_remove cur pgdir (pgaddr pdeno pteno)
            else pure tt)
          >> rest)
        pm

-- The page table that the entry `pdeno` of the directory names is emptied and given up.
unmap_table : Current → ℕ → ℕ → Cmd Pmap (Unit {0})
unfolding unmap_entries kaddr pa2page page_decref
unmap_table cur pgdir pdeno pm =
    if not (is_present (read_word pm pgdir pdeno))
    then ok tt pm
    else let pa = pte_addr (read_word pm pgdir pdeno) in
      (do
        pt ← kaddr pa
        unmap_entries 1024 0 cur pgdir pdeno pt
        modify (write_word pgdir pdeno 0)
        p ← pa2page pa
        page_decref p)
        pm

-- `n` rounds of the loop over the directory, from entry `pdeno`
unmap_tables : ℕ → ℕ → Current → ℕ → Cmd Pmap (Unit {0})
unfolding unmap_table
unmap_tables zero pdeno cur pgdir = pure tt
unmap_tables (suc n) pdeno cur pgdir =
    let rest = unmap_tables n (pdeno + 1) cur pgdir in unmap_table cur pgdir pdeno >> rest

-- The user part of the address space, and then the page directory, are given up.
unfoldable pub free_vm : Current → ℕ → Cmd Pmap (Unit {0})
unfolding unmap_tables
free_vm cur pgdir = do
  unmap_tables (pdx utop) 0 cur pgdir
  p ← pa2page (pgdir * 2 ^ 12)
  page_decref p

-- The end of `env_free`: the environment goes to the front of the free list.
abbrev pub release_env : ℕ → Kernel → Kernel
release_env e k =
    record (set_env e
      (record (k.envs e) {
        env_pgdir = none;
        env_status = env_free_status;
        env_link = k.env_free_list;
      })
      k) { env_free_list = some e }

unfoldable pub env_free : ℕ → Cmd Kernel (Unit {0})
unfolding free_vm
env_free e k =
    (do
      pgdir ← deref (k.envs e).env_pgdir
      lift (free_vm (current k) pgdir)
      modify (release_env e))
      (if eq_opt (curenv k) e then record k { cr3 = k.pm.kern_pgdir } else k)

unfoldable pub env_destroy : ℕ → Cmd Kernel (Unit {0})
unfolding env_free sched_yield
env_destroy e k =
    if (k.envs e).env_status == env_running && not (eq_opt (curenv k) e)
    then ok tt (set_env e (record (k.envs e) { env_status = env_dying }) k)
    else (do
      env_free e
      λ (s : Kernel). if eq_opt (curenv s) e then sched_yield (set_curenv none s) else ok tt s)
        k

-- `user_mem_assert`: the environment is destroyed if it may not access the range.
unfoldable pub assert_result : ℕ → Option Errno → Cmd Kernel (Unit {0})
unfolding env_destroy
assert_result e none k = ok tt k
assert_result e (some r) k = env_destroy e k

unfoldable pub user_mem_assert : ℕ → ℕ → ℕ → ℕ → Cmd Kernel (Unit {0})
unfolding assert_result user_mem_check
user_mem_assert e va len perm k =
    (do
      pgdir ← deref (k.envs e).env_pgdir
      r ← lift (user_mem_check pgdir va len (bit_or perm pte_u))
      assert_result e r)
      k
