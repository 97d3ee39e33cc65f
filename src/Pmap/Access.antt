-- ===== src/Pmap/Access.antt =====
-- `user_mem_check` of kern/pmap.c. The loop runs on fuel; `user_mem_check` gives it a round for each
-- page of the 32-bit address space.
pub mod Check
use challenge.Base.{
  ℕ, zero, suc, ◌+◌, ◌^◌, bit_and, Bool, true, false, not, ◌||◌, Option, none, some, ◌==◌, ltb, leb,
  if◌then◌else◌,
}
use challenge.Base.Run.{Cmd, Run, ok, pure, ◌>>=◌, ◌>>◌}
use challenge.Mmu.{word, pgsize, rounddown, roundup, ulim, pte_u}
use challenge.Pmap.Pages.{Pmap, PtePtr, read_pte}
use challenge.Pmap.Tables.{is_present, pgdir_walk, Errno}

-- The condition of the loop's `if`: the page at `va_ptr` is not accessible.
refused : ℕ → ℕ → Option PtePtr → Pmap → Bool
refused va_ptr perm none pm = true
refused va_ptr perm (some e) pm =
    leb ulim va_ptr
    || (not (is_present (read_pte pm e)) || not (bit_and (read_pte pm e) perm == perm))

mem_check_loop : ℕ → ℕ → ℕ → ℕ → ℕ → ℕ → Cmd Pmap (Option Errno)
unfolding refused pgdir_walk
mem_check_loop zero pgdir va va_ptr end perm pm = ok none pm
mem_check_loop (suc k) pgdir va va_ptr end perm pm =
    let rest = mem_check_loop k pgdir va (va_ptr + pgsize) end perm in
    if ltb va_ptr end
    then (do
      e ← pgdir_walk pgdir va_ptr false
      λ s.
          if refused va_ptr perm e s
          then ok (some Errno.fault)
              (record s { user_mem_check_addr = if ltb va_ptr va then va else va_ptr })
          else rest s)
        pm
    else ok none pm

unfoldable pub user_mem_check : ℕ → ℕ → ℕ → ℕ → Cmd Pmap (Option Errno)
unfolding mem_check_loop rounddown roundup
user_mem_check pgdir va len perm =
    mem_check_loop (2 ^ 20) pgdir va (rounddown va pgsize) (roundup (word (va + len)) pgsize) perm
