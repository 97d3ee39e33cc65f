-- ===== src/Pmap/Init.antt =====
-- kern/pmap.c: `boot_alloc` and `page_init`.
--
-- `nextfree` is the static variable of `boot_alloc`, 0 before the first call, and `end` the address that
-- the linker gives. A page in memory has a number below 2^20.
pub mod Loops
pub mod Free
use challenge.Base.{ℕ, zero, suc, ◌+◌, ◌-◌, Option, none, some, ◌==◌, ltb, if◌then◌else◌, update}
use challenge.Base.Run.{ok, Cmd, panic, Panic}
use challenge.Mmu.{word, pgnum, pgsize, roundup, kernbase}
use challenge.Pmap.Pages.{PageInfo, Pmap}

-- The address returned, and the new `nextfree`.
unfoldable pub boot_alloc : ℕ → ℕ → ℕ → ℕ × ℕ
unfolding roundup
boot_alloc end n nextfree =
    let next = if nextfree == 0 then roundup end pgsize else nextfree in
    if n == 0 then (next, next) else (roundup next pgsize, roundup (word (next + n)) pgsize)

-- The loop over all pages, of `n` rounds from page `i`: `pages` and the head of the free list.
unfoldable pub init_loop : ℕ → ℕ → (ℕ → PageInfo) × Option ℕ → (ℕ → PageInfo) × Option ℕ
init_loop zero i r = r
init_loop (suc n) i r =
    init_loop n (i + 1) (update r.0 i (record { pp_ref = 0; pp_link = r.1 }), some i)

-- The loop over the pages in use, of `n` rounds from page `i`
unfoldable pub hole_loop : ℕ → ℕ → (ℕ → PageInfo) → ℕ → PageInfo
hole_loop zero i pages = pages
hole_loop (suc n) i pages =
    hole_loop n (i + 1) (update pages i (record { pp_ref = 1; pp_link = none }))

abbrev pub set_link : ℕ → Option ℕ → (ℕ → PageInfo) → ℕ → PageInfo
set_link i link pages = update pages i (record (pages i) { pp_link = link })

-- MPENTRY_PADDR/PGSIZE
abbrev pub mpentry : ℕ
mpentry = 7

-- PGNUM(IOPHYSMEM)
abbrev pub iophys : ℕ
iophys = 160

-- The pages that the kernel keeps: page 0 and the page at MPENTRY_PADDR.
abbrev pub reserve : (ℕ → PageInfo) → ℕ → PageInfo
reserve pages =
    let used : PageInfo = record { pp_ref = 1; pp_link = none } in
    let pages1 = update pages mpentry used in
    let pages2 = set_link (mpentry + 1) (some (mpentry - 1)) pages1 in
    let pages3 = update pages2 0 used in set_link 1 none pages3

-- The pages from IOPHYSMEM up to the page `limit`, or none if it is below.
abbrev pub skip_hole : ℕ → (ℕ → PageInfo) → ℕ → PageInfo
skip_hole limit pages =
    let n = limit - iophys in
    set_link (iophys + n) (pages iophys).pp_link (hole_loop n iophys pages)

unfoldable pub page_init : ℕ → ℕ → Cmd Pmap (Unit {0})
unfolding boot_alloc init_loop hole_loop
page_init end nextfree pm =
    let (pages, head) = init_loop pm.npages 0 (pm.pages, pm.page_free_list) in
    let reserved = record pm { pages = reserve pages; page_free_list = head } in
    let first_free_page = (boot_alloc end 0 nextfree).0 in
    if ltb first_free_page kernbase
    then panic Panic.paddr_invalid reserved
    else ok tt
        (record reserved { pages = skip_hole (pgnum (first_free_page - kernbase)) reserved.pages })
