-- ===== src/Syscall/Memory.antt =====
-- kern/syscall.c: the system calls on pages.
pub mod PageAlloc
use challenge.Base.{
  ℕ, ◌+◌, ◌-◌, ◌*◌, ◌/◌, ◌%◌, ◌^◌, bit_and, Bool, true, false, not, ◌&&◌, ◌||◌, Option, none, some,
  [], ◌==◌, leb, ltb, if◌then◌else◌, update,
}
use challenge.Base.Run.{Run, ok, exit, Exit, Cmd, pure, modify, ◌>>=◌, ◌>>◌}
use challenge.Mmu.{pgsize, roundup, utop, pte_p, pte_u, pte_w}
use challenge.Pmap.Pages.{Pmap, PtePtr, page_alloc, page_free, incref, read_pte}
use challenge.Pmap.Tables.{Errno, page_insert, page_lookup, page_remove}
use challenge.Env.State.{
  Upcall, upcall_index, Env, Kernel, Result, done, fail, envid2env, env_runnable, env_not_runnable,
  maxipcwaiting, curenv, set_env, deref, lift, current,
}
use challenge.Syscall.Envs.{neg, with_env}

-- `(uintptr_t)va >= UTOP || ROUNDUP(va, PGSIZE) != va`
abbrev pub bad_va : ℕ → Bool
bad_va va = leb utop va || not (roundup va pgsize == va)

-- `(perm & (PTE_U | PTE_P)) != (PTE_U | PTE_P)`
abbrev pub bad_perm : ℕ → Bool
bad_perm perm = not (bit_and perm (pte_u + pte_p) == pte_u + pte_p)

-- The value of `page_insert` as an int32_t
abbrev pub status_code : Option Errno → ℕ
status_code none = 0
status_code (some r) = neg r

-- The end of `sys_page_alloc`, after `page_insert` of the page `p`.
alloc_result : ℕ → Option Errno → Cmd Kernel ℕ
unfolding page_free
alloc_result p none k = ok 0 k
alloc_result p (some r) k = (do lift (page_free p); pure (neg r)) k

-- The error for no free page is returned as E_NO_MEM, without the sign.
alloc_page : ℕ → ℕ → ℕ → Option ℕ → Cmd Kernel ℕ
unfolding alloc_result page_insert
alloc_page e va perm none k = ok 4 k
alloc_page e va perm (some p) k =
    (do
      lift (modify (incref p))
      pgdir ← deref (k.envs e).env_pgdir
      r ← lift (page_insert (current k) pgdir p va perm)
      alloc_result p r)
      k

unfoldable pub sys_page_alloc : ℕ → ℕ → ℕ → Cmd Kernel ℕ
unfolding with_env roundup alloc_page page_alloc
sys_page_alloc envid va perm = with_env envid true (λ e.
    if bad_va va
    then pure (neg Errno.inval)
    else if bad_perm perm
    then pure (neg Errno.inval)
    else (do p ← lift (page_alloc 1); alloc_page e va perm p))

-- `(perm & PTE_W) && !(*ppte & PTE_W)`
abbrev pub adds_write : ℕ → ℕ → Bool
adds_write perm pte = not (bit_and perm pte_w == 0) && bit_and pte pte_w == 0

map_found : ℕ → ℕ → ℕ → Option ℕ × Option PtePtr → Cmd Kernel ℕ
unfolding page_insert
map_found dst dstva perm (none, e) k = ok (neg Errno.inval) k
map_found dst dstva perm (some p, none) k = exit Exit.kernel_fault k
map_found dst dstva perm (some p, some e) k =
    if bad_perm perm
    then ok (neg Errno.inval) k
    else if adds_write perm (read_pte k.pm e)
    then ok (neg Errno.inval) k
    else (do
      pgdir ← deref (k.envs dst).env_pgdir
      r ← lift (page_insert (current k) pgdir p dstva perm)
      pure (status_code r))
        k

unfoldable pub sys_page_map : ℕ → ℕ → ℕ → ℕ → ℕ → Cmd Kernel ℕ
unfolding with_env roundup map_found page_lookup
sys_page_map srcenvid srcva dstenvid dstva perm = with_env srcenvid true (λ src.
    with_env dstenvid true (λ dst.
      if bad_va srcva || bad_va dstva then pure (neg Errno.inval) else λ (k : Kernel).
      (do
        pgdir ← deref (k.envs src).env_pgdir
        found ← lift (page_lookup pgdir srcva)
        map_found dst dstva perm found)
        k))

unfoldable pub sys_page_unmap : ℕ → ℕ → Cmd Kernel ℕ
unfolding with_env roundup page_remove
sys_page_unmap envid va = with_env envid false (λ e.
    if bad_va va then pure (neg Errno.inval) else λ (k : Kernel).
    (do pgdir ← deref (k.envs e).env_pgdir; lift (page_remove (current k) pgdir va); pure 0) k)
