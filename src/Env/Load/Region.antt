-- ===== src/Env/Load/Region.antt =====
-- kern/env.c: the pages that `region_alloc` maps.
pub mod FirstPage
pub mod Grown
pub use FirstPage.{Loaded, Entries}
use challenge.Base.{
  ℕ, zero, suc, ◌+◌, ◌-◌, ◌/◌, ◌%◌, ◌^◌, ◌<◌, ◌≤◌, ◌≡◌, ◌≢◌, refl, sym, ◌∙◌, ap, subst, false, some,
  none, List, [], ◌∷◌, ◌++◌, arith, inl, inr, ◌⊎◌, length, All, lt→ltb, le→not_ltb, write_other,
  write_same, ==_refl, update_ne, bit_or,
}
use challenge.Base.Run.{ok}
use challenge.Mmu.{rounddown, roundup, word, pgsize, pdx, ptx, pgnum, pte_w, pte_u}
use challenge.Pmap.Pages.{PageInfo, Pmap}
use challenge.Pmap.Tables.{Current, is_present, leaf_entry, page_insert}
use challenge.Pmap.FreeList.Alloc.{
  IsFreeList, Avoids, Allocated, page_alloc-head, set_page-IsFreeList,
}
use challenge.Pmap.Mapping.Walk.{HasTable}
use challenge.Pmap.Mapping.Edit.{entry_of}
use challenge.Pmap.Mapping.Insert.{inserted_at, page_insert-unmapped}
use challenge.Pmap.Boot.Region.{page_at, page_at-pdx, page_at-ptx, page_at-next, next_table}
use challenge.Env.State.{Kernel, current}
use challenge.Env.Load.{region_alloc, region_loop, insert_new}
use challenge.Env.Load.Region.FirstPage.{
  First, Avoids-prefix, page_loop, other_words, free2, table2, Loaded-first, pm2,
}

module _ (cur : Current) (pgdir t vend d : ℕ) where
  region_loop-end :
      (f : ℕ) (pm : Pmap) (va : ℕ)
      → vend ≤ va
      → region_loop (suc f) cur pgdir va vend pm ≡ ok (some tt) pm
  unfolding region_loop
  region_loop-end f pm va le = rw (le→not_ltb va vend le) refl

  region_loop-Loaded :
      (ps rest : List ℕ) (f : ℕ) (pm : Pmap) (k : ℕ)
      → length ps < f
      → k + length ps ≤ 1024
      → vend ≡ page_at d (k + length ps)
      → vend < 2 ^ 32
      → HasTable pm pgdir (page_at d 0) t
      → IsFreeList pm (ps ++ rest)
      → Avoids pgdir ps
      → Avoids t ps
      → ((j : ℕ) → k ≤ j → j < k + length ps → is_present (pm.mem t j) ≡ false)
      → (pm' : Pmap) × (region_loop f cur pgdir (page_at d k) vend pm ≡ ok (some tt) pm')
        × Loaded pm t k ps rest pm'
  region_loop-Loaded ps rest zero pm k fuel room e below table free dir tab unmapped =
      absurd (omega arith)
  region_loop-Loaded [] rest (suc f) pm k fuel room e below table free dir tab unmapped = (
    pm,
    region_loop-end f pm (page_at d k) (omega (arith, e)),
    record {
      entries = tt;
      counted = tt;
      free = free;
      size = refl;
      words = λ g j a o. refl;
      pages = λ q a. refl;
    },
  )
  region_loop-Loaded (p ∷ ps) rest (suc f) pm k fuel room e below table free dir tab unmapped =
      let not_dir : pgdir ≢ p = λ q. dir.0 (sym q) in
      let not_table : t ≢ p = λ q. tab.0 (sym q) in
      let here = unmapped k (omega arith) (omega arith) in
      let xs = ps ++ rest in
      let in_table : k < 1024 = omega arith in
      let first : First pgdir t d pm k p xs = record {
        free = free;
        table = table;
        in_table = in_table;
        not_dir = not_dir;
        not_table = not_table;
        unmapped = here;
      } in
      let (pm', run, l) =
        region_loop-Loaded ps rest f (pm2 cur pgdir t vend d pm k p xs first) (k + 1) (omega arith)
          (omega arith) (omega (arith, e)) below (table2 cur pgdir t vend d pm k p xs first)
          (free2 cur pgdir t vend d pm k p xs first) dir.1 tab.1
          (λ j le lt.
            ap is_present (
              other_words cur pgdir t vend d pm k p xs first t j not_table
                (inr (λ q. omega (arith, q))))
            ∙ unmapped j (omega arith) (omega arith)) in
      (
        pm',
        page_loop cur pgdir t vend d pm k p xs first f (omega (arith, e))
            ∙ ap
                (λ (va : ℕ).
                  region_loop f cur pgdir va vend (pm2 cur pgdir t vend d pm k p xs first))
                (page_at-next d k (omega (arith, e)))
            ∙ run,
        Loaded-first cur pgdir t vend d pm k p xs first ps rest pm'
            (Avoids-prefix p ps rest free.distinct.0) tab l,
      )

-- The number of pages that a region touches
abbrev pub pages_of : ℕ → ℕ → ℕ
pages_of va len = (va % pgsize + len + (pgsize - 1)) / pgsize

pub region_start : (va : ℕ) → va < 2 ^ 32 → rounddown va pgsize ≡ page_at (pdx va) (ptx va)
unfolding rounddown
region_start va lt = omega arith

pub region_stop :
    (va len n : ℕ)
    → n ≡ pages_of va len
    → ptx va + n ≤ 1024
    → va + len + pgsize < 2 ^ 32
    → roundup (word (va + len)) pgsize ≡ page_at (pdx va) (ptx va + n)
unfolding roundup rounddown
region_stop va len n count room below = omega arith

-- `region_alloc` of a region inside one page table, with nothing mapped there and enough free pages: it takes
-- a page for each page that the region touches, in the order of the free list, and maps it for the user to read and write.
pub region_alloc-Loaded :
    (f e : ℕ) (k : Kernel) (va len pgdir t : ℕ) (ps rest : List ℕ)
    → (k.envs e).env_pgdir ≡ some pgdir
    → length ps ≡ pages_of va len
    → length ps < f
    → ptx va + length ps ≤ 1024
    → va + len + pgsize < 2 ^ 32
    → HasTable k.pm pgdir va t
    → IsFreeList k.pm (ps ++ rest)
    → Avoids pgdir ps
    → Avoids t ps
    → ((j : ℕ) → ptx va ≤ j → j < ptx va + length ps → is_present (k.pm.mem t j) ≡ false)
    → (pm' : Pmap) × (region_alloc f e va len k ≡ ok (some tt) (record k { pm = pm' }))
      × Loaded k.pm t (ptx va) ps rest pm'
unfolding region_alloc
region_alloc-Loaded f e k va len pgdir t ps rest dir count fuel room below table free off_dir
      off_table unmapped =
    let end = page_at (pdx va) (ptx va + length ps) in
    let limit : end < 2 ^ 32 = omega (arith, count, room, below) in
    let dir_entry : pdx va ≡ pdx (page_at (pdx va) 0) = omega (arith, room, below) in
    let (pm', run, l) =
      region_loop-Loaded (current k) pgdir t end (pdx va) ps rest f k.pm (ptx va) fuel room refl
        limit (next_table k.pm pgdir va (page_at (pdx va) 0) t dir_entry table) free off_dir
        off_table unmapped in
    (
      pm',
      rw (dir, region_start va (omega arith), region_stop va len (length ps) count room below, run)
          refl,
      l,
    )
