-- ===== src/Pmap/Tables.antt =====
-- kern/pmap.c: the two-level page table and the check of user memory.
use challenge.Base.{
  ℕ, bit_and, bit_or, Bool, true, false, not, Option, none, some, ◌∷◌, ◌==◌, if◌then◌else◌,
}
use challenge.Base.Run.{ok, Cmd, pure, modify, ◌>>=◌, ◌>>◌}
use challenge.Mmu.{pdx, ptx, pte_addr, pte_p, pte_w, pte_u}
use challenge.Pmap.Pages.{
  Pmap, PtePtr, read_word, write_word, read_pte, incref, page2pa, kaddr, pa2page, page_alloc,
  page_decref,
}

-- `x & PTE_P`
abbrev pub is_present : ℕ → Bool
is_present pte = not (bit_and pte pte_p == 0)

-- the entry for `va` of the page table that the directory entry names
walk_entry : ℕ → ℕ → Cmd Pmap (Option PtePtr)
unfolding kaddr
walk_entry pgdir va pm =
    (do
      f ← kaddr (pte_addr (read_word pm pgdir (pdx va)))
      pure (some (record { table = f; index = ptx va })))
      pm

-- The case of a page table that is not present and is to be created, after `page_alloc`.
walk_fresh : ℕ → ℕ → Option ℕ → Cmd Pmap (Option PtePtr)
unfolding walk_entry
walk_fresh pgdir va none pm = pure none pm
walk_fresh pgdir va (some p) pm = walk_entry pgdir va (
    write_word pgdir (pdx va) (bit_or (bit_or (bit_or (page2pa p) pte_p) pte_w) pte_u)
      (incref p pm))

unfoldable pub pgdir_walk : ℕ → ℕ → Bool → Cmd Pmap (Option PtePtr)
unfolding walk_fresh page_alloc
pgdir_walk pgdir va create pm =
    if is_present (read_word pm pgdir (pdx va))
    then walk_entry pgdir va pm
    else if not create
    then pure none pm
    else (do p ← page_alloc 1; walk_fresh pgdir va p) pm

-- The page mapped at `va`, and the entry stored through `pte_store`.
lookup_entry : Option PtePtr → Cmd Pmap (Option ℕ × Option PtePtr)
unfolding pa2page
lookup_entry none pm = pure (none, none) pm
lookup_entry (some e) pm =
    if not (is_present (read_pte pm e))
    then pure (none, some e) pm
    else (do p ← pa2page (pte_addr (read_pte pm e)); pure (some p, some e)) pm

unfoldable pub page_lookup : ℕ → ℕ → Cmd Pmap (Option ℕ × Option PtePtr)
unfolding lookup_entry pgdir_walk
page_lookup pgdir va = do e ← pgdir_walk pgdir va false; lookup_entry e

-- What `tlb_invalidate` reads: `curenv`, which may be NULL, and its `env_pgdir`, which may be NULL.
abbrev pub Current : Type 0
Current = Option (Option ℕ)

unfoldable pub tlb_invalidate : Current → ℕ → ℕ → Cmd Pmap (Unit {0})
tlb_invalidate none pgdir va pm = ok tt (record pm { flushed = va ∷ pm.flushed })
tlb_invalidate (some none) pgdir va pm = ok tt pm
tlb_invalidate (some (some d)) pgdir va pm =
    if d == pgdir then ok tt (record pm { flushed = va ∷ pm.flushed }) else ok tt pm

remove_page : Current → ℕ → ℕ → Option ℕ × Option PtePtr → Cmd Pmap (Unit {0})
unfolding page_decref tlb_invalidate
remove_page cur pgdir va (none, e) pm = pure tt pm
remove_page cur pgdir va (some p, none) pm = pure tt pm
remove_page cur pgdir va (some p, some e) pm =
    if not (is_present (read_pte pm e))
    then pure tt pm
    else (do page_decref p; modify (write_word e.table e.index 0); tlb_invalidate cur pgdir va) pm

unfoldable pub page_remove : Current → ℕ → ℕ → Cmd Pmap (Unit {0})
unfolding remove_page page_lookup
page_remove cur pgdir va = do found ← page_lookup pgdir va; remove_page cur pgdir va found

-- The result of a kernel function that returns 0 or a negative error code.
pub data Errno : Type 0 where
  bad_env inval no_mem no_free_env fault no_sys ipc_not_recv : Errno

-- `PTE_ADDR(page2pa(pp)) | perm | PTE_P`
abbrev pub leaf_entry : ℕ → ℕ → ℕ
leaf_entry p perm = bit_or (bit_or (pte_addr (page2pa p)) perm) pte_p

insert_page : Current → ℕ → ℕ → ℕ → ℕ → Option PtePtr → Cmd Pmap (Option Errno)
unfolding page_remove
insert_page cur pgdir p va perm none pm = pure (some Errno.no_mem) pm
insert_page cur pgdir p va perm (some e) pm =
    let counted = incref p pm in
    (do
      (if is_present (read_pte counted e) then page_remove cur pgdir va else pure tt)
      modify (write_word e.table e.index (leaf_entry p perm))
      pure none)
      counted

-- `none` is the return value 0.
unfoldable pub page_insert : Current → ℕ → ℕ → ℕ → ℕ → Cmd Pmap (Option Errno)
unfolding insert_page pgdir_walk
page_insert cur pgdir p va perm = do e ← pgdir_walk pgdir va true; insert_page cur pgdir p va perm e
