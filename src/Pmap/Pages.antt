-- ===== src/Pmap/Pages.antt =====
-- kern/pmap.c and the inline functions of kern/pmap.h: physical pages and their free list.
--
-- A `struct PageInfo *` is the index of the page in `pages`; a pointer to a page table or page
-- directory is the number of the physical page that it stands in (KADDR and PADDR differ from it by
-- KERNBASE), and a `pte_t *` is such a page with the index of the entry. Physical memory is the
-- function `mem` from the page and the index of the 32-bit word, so a page table that is also mapped
-- elsewhere is the same memory.
use challenge.Base.{
  ℕ, ◌+◌, ◌-◌, ◌*◌, ◌%◌, ◌^◌, bit_and, not, Option, none, some, List, leb, ◌==◌, if◌then◌else◌,
  is_some, update,
}
use challenge.Base.Run.{Panic, ok, Cmd, pure, panic, modify, ◌>>=◌, ◌>>◌}
use challenge.Mmu.{word, pgnum}

pub record PageInfo : Type 0 where
  pub pp_ref : ℕ  -- uint16_t
  pub pp_link : Option ℕ

-- The globals and static variables of pmap.c, physical memory, and the addresses given to `invlpg`,
-- the latest first.
pub record Pmap : Type 0 where
  pub npages : ℕ
  pub pages : ℕ → PageInfo
  pub page_free_list : Option ℕ
  pub kern_pgdir : ℕ
  pub mmio_base : ℕ
  pub user_mem_check_addr : ℕ
  pub mem : ℕ → ℕ → ℕ
  pub flushed : List ℕ

pub record PtePtr : Type 0 where
  pub table : ℕ
  pub index : ℕ

abbrev pub read_word : Pmap → ℕ → ℕ → ℕ
read_word pm f i = pm.mem f i

abbrev pub write_word : ℕ → ℕ → ℕ → Pmap → Pmap
write_word f i v pm = record pm { mem = update pm.mem f (update (pm.mem f) i v) }

abbrev pub read_pte : Pmap → PtePtr → ℕ
read_pte pm p = read_word pm p.table p.index

abbrev pub set_page : ℕ → PageInfo → Pmap → Pmap
set_page p i pm = record pm { pages = update pm.pages p i }

-- page2pa
abbrev pub page2pa : ℕ → ℕ
page2pa p = word (p * 2 ^ 12)

-- KADDR of a physical address, as the number of its page
unfoldable pub kaddr : ℕ → Cmd Pmap ℕ
kaddr pa pm = if leb pm.npages (pgnum pa) then panic Panic.kaddr_invalid pm else pure (pgnum pa) pm

unfoldable pub page2kva : ℕ → Cmd Pmap ℕ
unfolding kaddr
page2kva p = kaddr (page2pa p)

unfoldable pub pa2page : ℕ → Cmd Pmap ℕ
pa2page pa pm =
    if leb pm.npages (pgnum pa) then panic Panic.pa2page_invalid pm else pure (pgnum pa) pm

-- `memset(page2kva(result), 0, PGSIZE)`
abbrev zero_page : ℕ → Pmap → Pmap
zero_page f pm = record pm { mem = update pm.mem f (λ _. 0) }

take_free : ℕ → Option ℕ → Cmd Pmap (Option ℕ)
unfolding page2kva
take_free alloc_flags none pm = pure none pm
take_free alloc_flags (some p) pm =
    let taken =
      set_page p (record (pm.pages p) { pp_link = none })
        (record pm { page_free_list = (pm.pages p).pp_link }) in
    if bit_and alloc_flags 1 == 0
    then pure (some p) taken
    else (do f ← page2kva p; modify (zero_page f); pure (some p)) taken

unfoldable pub page_alloc : ℕ → Cmd Pmap (Option ℕ)
unfolding take_free
page_alloc alloc_flags pm = take_free alloc_flags pm.page_free_list pm

unfoldable pub page_free : ℕ → Cmd Pmap (Unit {0})
page_free p pm =
    if not ((pm.pages p).pp_ref == 0)
    then panic Panic.page_free_ref pm
    else if is_some (pm.pages p).pp_link
    then panic Panic.page_free_link pm
    else ok tt (record (set_page p (record (pm.pages p) { pp_link = pm.page_free_list }) pm) {
      page_free_list = some p;
    })

-- `pp->pp_ref++` and `--pp->pp_ref` on a uint16_t
abbrev pub incref : ℕ → Pmap → Pmap
incref p pm = set_page p (record (pm.pages p) { pp_ref = ((pm.pages p).pp_ref + 1) % 2 ^ 16 }) pm

abbrev pub decref : ℕ → Pmap → Pmap
decref p pm =
    set_page p (record (pm.pages p) { pp_ref = ((pm.pages p).pp_ref + 2 ^ 16 - 1) % 2 ^ 16 }) pm

unfoldable pub page_decref : ℕ → Cmd Pmap (Unit {0})
unfolding page_free
page_decref p pm =
    let pm' = decref p pm in if (pm'.pages p).pp_ref == 0 then page_free p pm' else ok tt pm'
