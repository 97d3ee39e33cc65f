-- ===== src/Env/Load/Unmapped.antt =====
-- kern/env.c: `region_alloc` where no page is left for a page table.
use challenge.Base.{
  ℕ, suc, ◌+◌, ◌^◌, ◌<◌, ◌≡◌, ◌≢◌, refl, ◌∙◌, ap, false, some, [], ◌∷◌, arith, lt→ltb, le→not_ltb,
}
use challenge.Base.Run.{ok}
use challenge.Mmu.{word, pgsize, pdx, ptx}
use challenge.Pmap.Pages.{Pmap}
use challenge.Pmap.Tables.{Current, is_present, page_insert, Errno}
use challenge.Pmap.FreeList.Alloc.{IsFreeList, page_alloc-head}
use challenge.Pmap.Mapping.Walk.{pgdir_walk-exhausted}
use challenge.Pmap.Boot.Region.{page_at}
use challenge.Env.State.{Kernel, current}
use challenge.Env.Load.{region_alloc, region_loop, insert_new}
use challenge.Env.Load.Region.{pages_of, region_start, region_stop}

page_insert-no_mem :
    (cur : Current) (pgdir p va perm : ℕ) (pm : Pmap)
    → is_present (pm.mem pgdir (pdx va)) ≡ false
    → IsFreeList pm []
    → page_insert cur pgdir p va perm pm ≡ ok (some Errno.no_mem) pm
unfolding page_insert
page_insert-no_mem cur pgdir p va perm pm missing none_left =
    rw (pgdir_walk-exhausted pgdir va missing none_left) refl

region_loop-one :
    (f : ℕ) (cur : Current) (pgdir p va vend : ℕ) (pm : Pmap)
    → va < vend
    → vend ≡ word (va + pgsize)
    → IsFreeList pm (p ∷ [])
    → pgdir ≢ p
    → is_present (pm.mem pgdir (pdx va)) ≡ false
    → (pm' : Pmap) × (region_loop (suc (suc f)) cur pgdir va vend pm ≡ ok (some tt) pm')
      × (is_present (pm'.mem pgdir (pdx va)) ≡ false)
      × IsFreeList pm' []
      × ((pm'.pages p).pp_ref ≡ 0)
unfolding region_loop insert_new
region_loop-one f cur pgdir p va vend pm lt last free ne missing =
    let (pm1, a) = page_alloc-head 0 pm p [] free in
    let still : is_present (pm1.mem pgdir (pdx va)) ≡ false =
      ap is_present (a.memory pgdir (pdx va) ne) ∙ missing in
    (
      pm1,
      rw
          (
            lt→ltb va vend lt,
            a.runs,
            page_insert-no_mem cur pgdir p va 6 pm1 still a.rest,
            le→not_ltb (word (va + pgsize)) vend (omega (arith, last)),
          )
          refl,
      still,
      a.rest,
      a.unreferenced,
    )

-- `region_alloc` of one page, with one free page and no page table for the address: it succeeds with nothing mapped
-- there, and the page is no longer free, though nothing refers to it.
pub region_alloc-not_mapped :
    (f e : ℕ) (k : Kernel) (va len pgdir p : ℕ)
    → (k.envs e).env_pgdir ≡ some pgdir
    → pages_of va len ≡ 1
    → va + len + pgsize < 2 ^ 32
    → ptx va < 1023
    → IsFreeList k.pm (p ∷ [])
    → pgdir ≢ p
    → is_present (k.pm.mem pgdir (pdx va)) ≡ false
    → (pm' : Pmap) × (region_alloc (suc (suc f)) e va len k ≡ ok (some tt) (record k { pm = pm' }))
      × (is_present (pm'.mem pgdir (pdx va)) ≡ false)
      × IsFreeList pm' []
      × ((pm'.pages p).pp_ref ≡ 0)
unfolding region_alloc
region_alloc-not_mapped f e k va len pgdir p dir count below inside free ne missing =
    let start = page_at (pdx va) (ptx va) in
    let end = page_at (pdx va) (ptx va + 1) in
    let same : pdx va ≡ pdx start = omega (arith, below) in
    let (pm', run, still, empty, unused) =
      region_loop-one f (current k) pgdir p start end k.pm (omega (arith, below))
        (omega (arith, count, below)) free ne
        (ap (λ i. is_present (k.pm.mem pgdir i)) {x = pdx start} {y = pdx va} (omega (arith, below))
          ∙ missing) in
    (
      pm',
      rw
          (
            dir,
            region_start va (omega (arith, below)),
            region_stop va len 1 (omega (arith, count)) (omega (arith, inside)) below,
            run,
          )
          refl,
      ap (λ i. is_present (pm'.mem pgdir i)) same ∙ still,
      empty,
      unused,
    )
