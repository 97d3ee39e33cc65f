-- ===== src/Env/Load/Region/Grown.antt =====
-- kern/env.c: `region_alloc` where the page table for the region is not there yet.
--
-- The first round takes a page for the region and then, in `page_insert`, one for the page table. It does the same from
-- the state `grown`, in which the table is there and the first page is back on the free list.
use challenge.Base.{
  ℕ, suc, ◌+◌, Option, ◌<◌, ◌≡◌, ◌≢◌, refl, sym, subst, ◌-◌, ◌%◌, ◌∙◌, ap, false, true, none, some,
  List, ◌∷◌, arith, ◌⊎◌, lt→ltb, update, update_self, update_ne, bit_or, ◌^◌,
}
use mathlib.Core.Path.{fun_ext, ap₂}
use native.Mathlib.Decide.{ℕ_discrete}
use challenge.Base.Run.{ok, exit, Run, Cmd, ◌>>=◌}
use challenge.Mmu.{word, pgsize, pdx, pgnum, pte_w, pte_u, rounddown, roundup}
use challenge.Pmap.Pages.{PageInfo, Pmap, page_alloc}
use challenge.Pmap.Tables.{Current, is_present, page_insert}
use challenge.Pmap.FreeList.Alloc.{IsFreeList, Allocated, page_alloc-head}
use challenge.Pmap.FreeList.Free.{pushed, after_free, Freeable}
use challenge.Pmap.Mapping.Walk.{Fresh, pgdir_walk-Fresh, pgdir_walk-present}
use challenge.Env.State.{Kernel, current, deref, lift, in_pmap}
use challenge.Env.Load.{Looped, region_alloc, region_loop, insert_new}

-- The page table `t` is there and empty, and `p` is the first page of the free list.
pub record Grown (pm : Pmap) (pgdir d t p : ℕ) (ts : List ℕ) (pm' : Pmap) : Type 0 where
  pub present : is_present (pm'.mem pgdir d) ≡ true
  pub entry : pgnum (pm'.mem pgdir d) ≡ t
  pub below : t < pm'.npages
  pub free : IsFreeList pm' (p ∷ ts)
  pub empty : (i : ℕ) → pm'.mem t i ≡ 0
  pub words : (g j : ℕ) → g ≢ t → g ≢ p → ((g ≢ pgdir) ⊎ (j ≢ d)) → pm'.mem g j ≡ pm.mem g j
  pub size : pm'.npages ≡ pm.npages

module _ (cur : Current) (pm : Pmap) (pgdir va p t : ℕ) (ts : List ℕ)
    (free : IsFreeList pm (p ∷ t ∷ ts)) (missing : is_present (pm.mem pgdir (pdx va)) ≡ false)
    (off_p : pgdir ≢ p) (off_t : t ≢ pgdir) where
  abbrev first : (pm1 : Pmap) × Allocated 0 pm p (t ∷ ts) pm1
  first = page_alloc-head 0 pm p (t ∷ ts) free

  abbrev pm1 : Pmap
  pm1 = first.0

  still_missing : is_present (pm1.mem pgdir (pdx va)) ≡ false
  still_missing = ap is_present (first.1.memory pgdir (pdx va) off_p) ∙ missing

  abbrev walked : (pm2 : Pmap) × Fresh pm1 pgdir va t ts pm2
  walked = pgdir_walk-Fresh pm1 pgdir va t ts still_missing first.1.rest off_t

  abbrev pm2 : Pmap
  pm2 = walked.0

  abbrev grown : Pmap
  grown = after_free p pm2

  apart : p ≢ t
  apart e = free.distinct.0.0 (sym e)

  page_same : pm2.pages p ≡ pm1.pages p
  page_same = walked.1.others p apart

  p_Freeable : Freeable pm2 p ts
  p_Freeable = record {
    below = omega (arith, free.idle.0.0, first.1.size, walked.1.size);
    unreferenced = ap (λ (i : PageInfo). i.pp_ref) page_same ∙ first.1.unreferenced;
    unlinked = ap (λ (i : PageInfo). i.pp_link) page_same ∙ first.1.unlinked;
    away = free.distinct.0.1;
  }

  link_back : (grown.pages p).pp_link ≡ pm2.page_free_list
  link_back = ap (λ (i : PageInfo). i.pp_link) (update_self pm2.pages p _)

  pages_back :
      (q : ℕ) → update grown.pages p (record (grown.pages p) { pp_link = none }) q ≡ pm2.pages q
  pages_back q = elim (ℕ_discrete q p) [
    | yes e ↦
        ap (update grown.pages p (record (grown.pages p) { pp_link = none })) e
        ∙ update_self grown.pages p _
        ∙ ap (λ (i : PageInfo). record i { pp_link = none }) (update_self pm2.pages p _)
        ∙ ap (λ (l : Option ℕ). record (pm2.pages p) { pp_link = l }) (sym p_Freeable.unlinked)
        ∙ ap pm2.pages (sym e)
    | no ne ↦ update_ne grown.pages p q _ ne ∙ update_ne pm2.pages p q _ ne
  ]

  takes_back : page_alloc 0 grown ≡ ok (some p) pm2
  unfolding page_alloc
  takes_back =
      ap₂
        (λ (l : Option ℕ) (f : ℕ → PageInfo).
          ok (some p) (record pm2 { page_free_list = l; pages = f }))
        link_back (fun_ext pages_back)

  same_insert :
      (perm : ℕ) → page_insert cur pgdir p va perm pm1 ≡ page_insert cur pgdir p va perm pm2
  unfolding page_insert
  same_insert perm = rw (walked.1.runs, pgdir_walk-present true walked.1.has_table) refl

  same_loop :
      (f vend : ℕ)
      → va < vend
      → region_loop (suc f) cur pgdir va vend pm ≡ region_loop (suc f) cur pgdir va vend grown
  unfolding region_loop insert_new
  same_loop f vend lt =
      rw (lt→ltb va vend lt, first.1.runs, takes_back, same_insert (bit_or pte_w pte_u)) refl

  grown-Grown : Grown pm pgdir (pdx va) t p ts grown
  grown-Grown = record {
    present = walked.1.has_table.present;
    entry = walked.1.has_table.entry;
    below = walked.1.has_table.below;
    free = pushed pm2 p ts walked.1.rest p_Freeable;
    empty = walked.1.empty;
    words = λ g j ne np o. walked.1.memory g j ne o ∙ first.1.memory g j np;
    size = walked.1.size ∙ first.1.size;
  }

in_pmap-same :
    (r : Run Pmap Looped) (k : Kernel) (pm : Pmap) → in_pmap r k ≡ in_pmap r (record k { pm = pm })
in_pmap-same (ok a s) k pm = refl
in_pmap-same (exit x s) k pm = refl

-- `region_alloc` without a page table does what it does from the state with it.
pub region_alloc-Grown :
    (f e : ℕ) (k : Kernel) (va len pgdir p t : ℕ) (ts : List ℕ)
    → (k.envs e).env_pgdir ≡ some pgdir
    → IsFreeList k.pm (p ∷ t ∷ ts)
    → is_present (k.pm.mem pgdir (pdx va)) ≡ false
    → pgdir ≢ p
    → t ≢ pgdir
    → rounddown va pgsize < roundup (word (va + len)) pgsize
    → va < 2 ^ 32
    → (pm' : Pmap) × (region_alloc (suc f) e va len k
        ≡ region_alloc (suc f) e va len (record k { pm = pm' }))
      × Grown k.pm pgdir (pdx va) t p ts pm'
unfolding region_alloc rounddown
region_alloc-Grown f e k va len pgdir p t ts dir free missing off_p off_t lt small =
    let start = va - va % pgsize in
    let end = roundup (word (va + len)) pgsize in
    let d : pdx start ≡ pdx va = omega arith in
    let missing' : is_present (k.pm.mem pgdir (pdx start)) ≡ false =
      ap (λ i. is_present (k.pm.mem pgdir i)) d ∙ missing in
    let pm' = grown (current k) k.pm pgdir start p t ts free missing' off_p off_t in
    let body : Option ℕ → Cmd Kernel Looped =
      λ o. (do x ← deref o; lift (region_loop (suc f) (current k) x start end)) in
    (
      pm',
      ap (λ (o : Option ℕ). body o k) dir
          ∙ ap (λ (r : Run Pmap Looped). in_pmap r k)
              (same_loop (current k) k.pm pgdir start p t ts free missing' off_p off_t f end lt)
          ∙ in_pmap-same (region_loop (suc f) (current k) pgdir start end pm') k pm'
          ∙ sym (ap (λ (o : Option ℕ). body o (record k { pm = pm' })) dir),
      subst (λ i. Grown k.pm pgdir i t p ts pm') d
          (grown-Grown (current k) k.pm pgdir start p t ts free missing' off_p off_t),
    )
