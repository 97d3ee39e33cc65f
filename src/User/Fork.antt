-- ===== src/User/Fork.antt =====
-- lib/fork.c: `fork` with copy-on-write pages.
--
-- `uvpd` and `uvpt` read the page directory and the page table entries that the kernel maps for the
-- environment, and `copy_page` is what `memcpy` of a page at one address to another does to its memory. `entry` is the
-- address of `_pgfault_upcall` and `handler` that of `pgfault`.
pub mod Shared
use challenge.Base.{
  ℕ, zero, suc, ◌+◌, ◌*◌, ◌-◌, ◌/◌, ◌^◌, bit_and, bit_or, Bool, not, ◌&&◌, ◌||◌, ◌==◌,
  if◌then◌else◌,
}
use challenge.Base.Run.{Exit, Cmd, pure, leave, modify, ◌>>=◌, ◌>>◌}
use challenge.Mmu.{
  pgsize, ptsize, pdx, pgnum, rounddown, uxstacktop, ustacktop, pte_p, pte_w, pte_u, word,
}
use challenge.Env.State.{envx, env_runnable}
use challenge.User.Calls.{
  Process, Answers, negative, lib_sys_exofork, lib_sys_getenvid, lib_sys_page_alloc,
  lib_sys_page_map, lib_sys_page_unmap, lib_sys_env_set_pgfault_upcall, lib_sys_env_set_status,
}
use challenge.User.Upcalls.{panic_if_negative, set_pgfault_handler}

abbrev pub pte_cow : ℕ
pte_cow = 0x800

abbrev pub pftemp : ℕ
pftemp = ptsize + ptsize - pgsize

-- `x & flag`
abbrev pub has : ℕ → ℕ → Bool
has x flag = not (bit_and x flag == 0)

module _ {K : Type 0} (int : Answers K) (uvpd uvpt : K → ℕ → ℕ) where
  abbrev pub copied_on_write : ℕ → ℕ → Process K → Bool
  copied_on_write err addr p =
      has err 2
      && (has (uvpd p.kernel (pdx addr)) pte_p
          && (has (uvpt p.kernel (pgnum addr)) pte_p && has (uvpt p.kernel (pgnum addr)) pte_cow))

  -- The handler of page faults, for the fault at `fault_va` with the error code `err`
  unfoldable pub pgfault : (ℕ → ℕ → K → K) → ℕ → ℕ → Cmd (Process K) (Unit {0})
  pgfault copy_page fault_va err p =
      let addr = rounddown fault_va pgsize in
      if not (copied_on_write err fault_va p)
      then leave Exit.user_panic p
      else ((lib_sys_page_alloc int 0 pftemp 7 >>= panic_if_negative int)
            >> (modify (λ (q : Process K). record q { kernel = copy_page pftemp addr q.kernel })
                >> ((lib_sys_page_map int 0 pftemp 0 addr 7 >>= panic_if_negative int)
                    >> (lib_sys_page_unmap int 0 pftemp >>= panic_if_negative int))))
          p

  -- `if ((r = ...) < 0) return r;` before the rest
  abbrev pub return_if_negative : Cmd (Process K) ℕ → ℕ → Cmd (Process K) ℕ
  return_if_negative rest r = if negative r then pure r else rest

  unfoldable pub duppage : ℕ → ℕ → Cmd (Process K) ℕ
  duppage envid pn p =
      let va = word (pn * pgsize) in
      let cow = bit_or (bit_or pte_cow pte_u) pte_p in
      if has (uvpt p.kernel pn) pte_w || has (uvpt p.kernel pn) pte_cow
      then (lib_sys_page_map int 0 va envid va cow
            >>= return_if_negative
                (lib_sys_page_map int 0 va 0 va cow >>= return_if_negative (pure 0)))
          p
      else (lib_sys_page_map int 0 va envid va (bit_or pte_u pte_p) >>= return_if_negative (pure 0))
          p

  -- The page is present, and the user may use it.
  abbrev pub is_user_page : ℕ → Process K → Bool
  is_user_page pn p =
      has (uvpd p.kernel (pdx (pn * pgsize))) pte_p
      && (has (uvpt p.kernel pn) pte_p && has (uvpt p.kernel pn) pte_u)

  -- The loop over the `n` pages from `pn` on; the result of `duppage` is not used.
  unfoldable pub dup_pages : ℕ → ℕ → ℕ → Cmd (Process K) (Unit {0})
  dup_pages zero pn envid = pure tt
  dup_pages (suc n) pn envid =
      (λ (p : Process K). if is_user_page pn p then (duppage envid pn >> pure tt) p else pure tt p)
      >> dup_pages n (pn + 1) envid

  -- In the child
  unfoldable pub fork_child : Cmd (Process K) ℕ
  fork_child = lib_sys_getenvid int >>= λ id.
      (modify (λ (p : Process K). record p { thisenv = envx id }) >> pure 0)

  -- In the parent
  unfoldable pub fork_parent : ℕ → ℕ → Cmd (Process K) ℕ
  fork_parent entry envid =
      dup_pages (ustacktop / pgsize) 0 envid
      >> (lib_sys_page_alloc int envid (uxstacktop - pgsize) 7
          >>= return_if_negative (
              lib_sys_env_set_pgfault_upcall int envid entry
              >> (lib_sys_env_set_status int envid env_runnable
                  >>= return_if_negative (pure envid))))

  abbrev pub forked_on : ℕ → ℕ → Cmd (Process K) ℕ
  forked_on entry envid =
      if negative envid
      then leave Exit.user_panic
      else if envid == 0
      then fork_child
      else fork_parent entry envid

  unfoldable pub fork : ℕ → ℕ → Cmd (Process K) ℕ
  fork entry handler =
      set_pgfault_handler int entry handler >> (lib_sys_exofork int >>= forked_on entry)
