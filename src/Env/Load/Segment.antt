-- ===== src/Env/Load/Segment.antt =====
-- kern/env.c: `load_icode` on one program header: `region_alloc` and the bytes of the segment.
use challenge.Base.{
  inl, inr, ◌⊎◌, ◌≢◌, sym, ℕ, ◌+◌, ◌^◌, ◌<◌, ◌≤◌, ◌≡◌, ◌≢◌, refl, sym, ◌∙◌, ap, subst, false, some,
  List, ◌++◌, arith, inl, length, All, le→not_ltb, ◌==◌,
}
use challenge.Base.Run.{ok}
use challenge.Mmu.{pgsize, pdx, ptx, pgnum}
use challenge.Pmap.Pages.{Pmap}
use challenge.Pmap.Tables.{is_present}
use challenge.Pmap.FreeList.Alloc.{IsFreeList, Avoids}
use challenge.Pmap.Mapping.Walk.{HasTable}
use challenge.Pmap.Access.Check.{table_of}
use challenge.Env.State.{Kernel}
use challenge.Env.Load.{Proghdr, elf_prog_load, load_segment, fill_segment, region_alloc}
use challenge.Env.Load.Region.{pages_of, region_alloc-Loaded}
use challenge.Env.Load.Store.{page_of, Writable}
use challenge.Env.Load.Bytes.{HasSegment, fill_segment-HasSegment}
use challenge.Env.Load.Pages.{
  nth, All-nth, place, place_inside, the_table, the_page, Loaded-Writable,
}

IsFreeList-memory :
    (pm pm' : Pmap) (xs : List ℕ)
    → pm' ≡ record pm { mem = pm'.mem }
    → IsFreeList pm xs
    → IsFreeList pm' xs
IsFreeList-memory pm pm' xs e h =
    let kept : IsFreeList (record pm { mem = pm'.mem }) xs = record {
      fits = h.fits;
      chain = h.chain;
      distinct = h.distinct;
      idle = h.idle;
    } in
    subst (λ (q : Pmap). IsFreeList q xs) (sym e) kept

load_segment-both :
    (f e : ℕ) (binary : ℕ → ℕ) (ph : Proghdr) (k : Kernel) (pm1 pm' : Pmap)
    → ph.p_type ≡ elf_prog_load
    → ph.p_filesz ≤ ph.p_memsz
    → region_alloc f e ph.p_va ph.p_memsz k ≡ ok (some tt) (record k { pm = pm1 })
    → fill_segment k.cr3 binary ph pm1 ≡ ok (some tt) pm'
    → load_segment f e binary ph k ≡ ok (some tt) (record k { pm = pm' })
unfolding load_segment fill_segment
load_segment-both f e binary ph k pm1 pm' type fits run run' =
    rw (le→not_ltb ph.p_memsz ph.p_filesz fits, ap (λ y. y == 1) type, run, run') refl

-- Where a segment is placed: its page table, its first entry there, and its pages
pub record Extent : Type 0 where
  pub table : ℕ
  pub first : ℕ
  pub pages : List ℕ

-- A word of memory outside the pages and the entries of a segment
abbrev pub Untouched : ℕ → ℕ → Extent → Type 0
Untouched g j x =
    Avoids g x.pages × ((g ≢ x.table) ⊎ ((j < x.first) ⊎ (x.first + length x.pages ≤ j)))

-- The segment of `ph` lies inside one page table, where nothing is mapped at its addresses, and has as many pages as
-- its addresses touch.
pub record Loadable (pm : Pmap) (pgdir f : ℕ) (ph : Proghdr) (x : Extent) : Type 0 where
  pub type : ph.p_type ≡ elf_prog_load
  pub fits : ph.p_filesz ≤ ph.p_memsz
  pub starts : x.first ≡ ptx ph.p_va
  pub count : length x.pages ≡ pages_of ph.p_va ph.p_memsz
  pub fuel : length x.pages < f
  pub room : x.first + length x.pages ≤ 1024
  pub below : ph.p_va + ph.p_memsz + pgsize < 2 ^ 32
  pub has_table : HasTable pm pgdir ph.p_va x.table
  pub off_dir : Avoids pgdir x.pages
  pub off_table : Avoids x.table x.pages
  pub unmapped :
      (j : ℕ) → x.first ≤ j → j < x.first + length x.pages → is_present (pm.mem x.table j) ≡ false

-- The segment is in memory: its bytes are those of the file and zeros behind them, on its own pages, each counted once,
-- and other words are as they were.
pub record SegmentLoaded (pm : Pmap) (pgdir : ℕ) (binary : ℕ → ℕ) (ph : Proghdr) (x : Extent)
    (rest : List ℕ) (pm' : Pmap) : Type 0 where
  pub segment : HasSegment pm' pgdir binary ph
  pub writable : Writable pm' pgdir ph.p_va (ph.p_va + ph.p_memsz)
  pub free : IsFreeList pm' rest
  pub size : pm'.npages ≡ pm.npages
  pub counted : All (λ p. (pm'.pages p).pp_ref ≡ 1) x.pages
  pub words : (g j : ℕ) → Untouched g j x → pm'.mem g j ≡ pm.mem g j
  pub tables : (a : ℕ) → ph.p_va ≤ a → a < ph.p_va + ph.p_memsz → table_of pm' pgdir a ≡ x.table
  pub own_pages :
      (a : ℕ)
      → ph.p_va ≤ a
      → a < ph.p_va + ph.p_memsz
      → page_of pm' pgdir a ≡ nth x.pages (place ph.p_va a)

-- A segment inside one page table, with nothing mapped there, enough free pages and the environment's page directory
-- in force, where `region_alloc` does what it does from the pages `pm`: it is loaded, on as many pages of the free list as its addresses touch, mapped writable; its bytes are
-- those of the file and zeros behind them, each of the pages is counted once, and other words of memory stay.
pub load_segment-SegmentLoaded :
    (f e : ℕ) (binary : ℕ → ℕ) (ph : Proghdr) (k : Kernel) (pm : Pmap) (pgdir : ℕ) (x : Extent)
    (rest : List ℕ)
    → ((j : ℕ) → binary j < 2 ^ 8)
    → (k.envs e).env_pgdir ≡ some pgdir
    → k.cr3 ≡ pgdir
    → region_alloc f e ph.p_va ph.p_memsz k
      ≡ region_alloc f e ph.p_va ph.p_memsz (record k { pm = pm })
    → IsFreeList pm (x.pages ++ rest)
    → Loadable pm pgdir f ph x
    → (pm' : Pmap) × (load_segment f e binary ph k ≡ ok (some tt) (record k { pm = pm' }))
      × SegmentLoaded pm pgdir binary ph x rest pm'
load_segment-SegmentLoaded f e binary ph k pm pgdir x rest bytes dir cr3 same free h =
    let ps = x.pages in
    let room : ptx ph.p_va + length ps ≤ 1024 = omega (arith, h.starts, h.room) in
    let (pm1, run, l) =
      region_alloc-Loaded f e (record k { pm = pm }) ph.p_va ph.p_memsz pgdir x.table ps rest dir
        h.count h.fuel room h.below h.has_table free h.off_dir h.off_table
        (λ j le lt. h.unmapped j (omega (arith, h.starts)) (omega (arith, h.starts))) in
    let w =
      Loaded-Writable pm pm1 pgdir x.table ph.p_va ph.p_memsz ps rest h.count room h.below
        h.has_table free h.off_dir h.off_table l in
    let (pm', run', segment, writable, elsewhere, only, entries) =
      fill_segment-HasSegment pm1 pgdir binary ph bytes h.fits w in
    let page =
      the_page pm pm1 pgdir x.table ph.p_va ph.p_memsz ps rest h.count room h.below h.has_table free
        h.off_dir h.off_table l in
    (
      pm',
      load_segment-both f e binary ph k pm1 pm' h.type h.fits (same ∙ run)
          (ap (λ d. fill_segment d binary ph pm1) cr3 ∙ run'),
      record {
        segment = segment;
        writable = writable;
        free = IsFreeList-memory pm1 pm' rest only l.free;
        size = ap (λ (q : Pmap). q.npages) only ∙ l.size;
        counted = subst (λ (q : Pmap). All (λ p. (q.pages p).pp_ref ≡ 1) ps) (sym only) l.counted;
        words = λ g j u.
            elsewhere g j (λ a le lt q.
              All-nth (λ p. p ≢ g) ps (place ph.p_va a)
                (place_inside pm pm1 pgdir x.table ph.p_va ph.p_memsz ps rest h.count room h.below
                  h.has_table free h.off_dir h.off_table l a le lt)
                u.0 (sym (page a le lt) ∙ sym q))
            ∙ l.words g j u.0 (elim u.1 [
              | inl ne ↦ inl ne
              | inr (inl lt) ↦ inr (inl (omega (arith, h.starts)))
              | inr (inr le) ↦ inr (inr (omega (arith, h.starts)))
            ]);
        tables = λ a le lt.
            ap pgnum (elsewhere pgdir (pdx a) (λ b le' lt' q. w.not_dir b le' lt' (sym q)))
            ∙ the_table pm pm1 pgdir x.table ph.p_va ph.p_memsz ps rest h.count room h.below
                h.has_table free h.off_dir h.off_table l a le lt;
        own_pages = λ a le lt. ap pgnum (entries a le lt) ∙ page a le lt;
      },
    )
