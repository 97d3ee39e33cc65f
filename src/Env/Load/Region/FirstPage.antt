-- ===== src/Env/Load/Region/FirstPage.antt =====
-- kern/env.c: the first page that `region_alloc` maps.
use challenge.Base.{
  ℕ, suc, ◌+◌, ◌<◌, ◌≤◌, ◌≡◌, ◌≢◌, refl, sym, ◌∙◌, ap, subst, false, none, List, [], ◌∷◌, ◌++◌,
  arith, inl, inr, ◌⊎◌, length, All, lt→ltb, write_other, write_same, ==_refl, update_ne, bit_or,
}
use challenge.Base.Run.{ok}
use challenge.Mmu.{word, pgsize, pdx, ptx, pgnum, pte_w, pte_u}
use challenge.Pmap.Pages.{PageInfo, Pmap}
use challenge.Pmap.Tables.{Current, is_present, leaf_entry, page_insert}
use challenge.Pmap.FreeList.Alloc.{
  IsFreeList, Avoids, Allocated, page_alloc-head, set_page-IsFreeList,
}
use challenge.Pmap.Mapping.Walk.{HasTable}
use challenge.Pmap.Mapping.Edit.{entry_of}
use challenge.Pmap.Mapping.Insert.{inserted_at, page_insert-unmapped}
use challenge.Pmap.Boot.Region.{page_at, page_at-pdx, page_at-ptx, next_table}
use challenge.Env.Load.{region_loop, insert_new}

-- `PTE_W | PTE_U`
abbrev user_perm : ℕ
user_perm = bit_or pte_w pte_u

-- The entries of the page table `t` from `k` on name the pages, for reading and writing by the user.
abbrev pub Entries : Pmap → ℕ → ℕ → List ℕ → Type 0
Entries pm t k [] = Unit
Entries pm t k (p ∷ ps) = (pm.mem t k ≡ leaf_entry p 6) × Entries pm t (k + 1) ps

-- The pages `ps` are taken from the free list, counted once and mapped from the entry `k` of `t` on. Other words outside
-- the pages, and other pages, are as they were.
pub record Loaded (pm : Pmap) (t k : ℕ) (ps rest : List ℕ) (pm' : Pmap) : Type 0 where
  pub entries : Entries pm' t k ps
  pub counted : All (λ p. (pm'.pages p).pp_ref ≡ 1) ps
  pub free : IsFreeList pm' rest
  pub size : pm'.npages ≡ pm.npages
  pub words :
      (g j : ℕ)
      → Avoids g ps
      → ((g ≢ t) ⊎ ((j < k) ⊎ (k + length ps ≤ j)))
      → pm'.mem g j ≡ pm.mem g j
  pub pages : (q : ℕ) → Avoids q ps → pm'.pages q ≡ pm.pages q

Allocated-HasTable :
    (pm pm1 : Pmap) (pgdir va t p : ℕ) (xs : List ℕ)
    → Allocated 0 pm p xs pm1
    → pgdir ≢ p
    → HasTable pm pgdir va t
    → HasTable pm1 pgdir va t
Allocated-HasTable pm pm1 pgdir va t p xs a ne h =
    let same = a.memory pgdir (pdx va) ne in
    record {
      present = ap is_present same ∙ h.present;
      entry = ap pgnum same ∙ h.entry;
      below = omega (arith, h.below, a.size);
      apart = h.apart;
    }

Inserted-HasTable :
    (pm1 : Pmap) (pgdir va va' t p : ℕ)
    → HasTable pm1 pgdir va' t
    → HasTable (inserted_at t va p user_perm pm1) pgdir va' t
Inserted-HasTable pm1 pgdir va va' t p h =
    let same : (inserted_at t va p user_perm pm1).mem pgdir (pdx va') ≡ pm1.mem pgdir (pdx va') =
      write_other pm1.mem t (ptx va) (leaf_entry p user_perm) pgdir (pdx va')
        (inl (λ e. h.apart (sym e))) in
    record {
      present = ap is_present same ∙ h.present;
      entry = ap pgnum same ∙ h.entry;
      below = h.below;
      apart = h.apart;
    }

-- A word outside `n + 1` entries from `k` on
abbrev Outside : ℕ → ℕ → ℕ → ℕ → ℕ → Type 0
Outside k n g t j = (g ≢ t) ⊎ ((j < k) ⊎ (k + n ≤ j))

still-Outside : (k n g t j : ℕ) → Outside k (suc n) g t j → Outside (k + 1) n g t j
still-Outside k n g t j (inl ne) = inl ne
still-Outside k n g t j (inr (inl lt)) = inr (inl (omega arith))
still-Outside k n g t j (inr (inr le)) = inr (inr (omega arith))

not_first : (k n g t j : ℕ) → Outside k (suc n) g t j → (g ≢ t) ⊎ (j ≢ k)
not_first k n g t j (inl ne) = inl ne
not_first k n g t j (inr (inl lt)) = inr (λ e. omega arith)
not_first k n g t j (inr (inr le)) = inr (λ e. omega arith)

pub Avoids-prefix : (x : ℕ) (ps rest : List ℕ) → Avoids x (ps ++ rest) → Avoids x ps
Avoids-prefix x [] rest a = tt
Avoids-prefix x (p ∷ ps) rest a = (a.0, Avoids-prefix x ps rest a.1)

-- The first page `p` of the free list can be mapped at `page_at d k`.
pub record First (pgdir t d : ℕ) (pm : Pmap) (k p : ℕ) (xs : List ℕ) : Type 0 where
  pub free : IsFreeList pm (p ∷ xs)
  pub table : HasTable pm pgdir (page_at d 0) t
  pub in_table : k < 1024
  pub not_dir : pgdir ≢ p
  pub not_table : t ≢ p
  pub unmapped : is_present (pm.mem t k) ≡ false

module _ (cur : Current) (pgdir t vend d : ℕ) where
  -- One page: it is allocated and mapped at `page_at d k`.
  module _ (pm : Pmap) (k p : ℕ) (xs : List ℕ) (h : First pgdir t d pm k p xs) where
    abbrev allocated : (pm1 : Pmap) × Allocated 0 pm p xs pm1
    allocated = page_alloc-head 0 pm p xs h.free

    abbrev pm1 : Pmap
    pm1 = allocated.0

    abbrev pub pm2 : Pmap
    pm2 = inserted_at t (page_at d k) p user_perm pm1

    table1 : HasTable pm1 pgdir (page_at d k) t
    table1 =
        next_table pm1 pgdir (page_at d 0) (page_at d k) t (page_at-pdx d k h.in_table)
          (Allocated-HasTable pm pm1 pgdir (page_at d 0) t p xs allocated.1 h.not_dir h.table)

    at_k : ptx (page_at d k) ≡ k
    at_k = page_at-ptx d k h.in_table

    nothing_there : is_present (entry_of pm1 t (page_at d k)) ≡ false
    nothing_there =
        ap (λ i. is_present (pm1.mem t i)) at_k
        ∙ ap is_present (allocated.1.memory t k h.not_table)
        ∙ h.unmapped

    inserts : page_insert cur pgdir p (page_at d k) user_perm pm1 ≡ ok none pm2
    inserts =
        (page_insert-unmapped cur p user_perm table1 (omega (arith, h.free.fits, allocated.1.size))
          (omega (arith, h.free.idle.0.0, allocated.1.size)) (omega arith) nothing_there).runs

    pub page_loop :
        (f : ℕ)
        → page_at d k < vend
        → region_loop (suc f) cur pgdir (page_at d k) vend pm
          ≡ region_loop f cur pgdir (word (page_at d k + pgsize)) vend pm2
    unfolding region_loop insert_new
    page_loop f lt = rw (lt→ltb (page_at d k) vend lt, allocated.1.runs, inserts) refl

    entry_k : pm2.mem t k ≡ leaf_entry p 6
    entry_k =
        subst (λ i. pm2.mem t i ≡ leaf_entry p 6) at_k
          (write_same pm1.mem t (ptx (page_at d k)) (leaf_entry p 6))

    pub other_words : (g j : ℕ) → g ≢ p → ((g ≢ t) ⊎ (j ≢ k)) → pm2.mem g j ≡ pm.mem g j
    other_words g j ne o =
        write_other pm1.mem t (ptx (page_at d k)) (leaf_entry p 6) g j
          (elim o [ inl a ↦ inl a | inr b ↦ inr (λ e. b (e ∙ at_k)) ])
        ∙ allocated.1.memory g j ne

    pub free2 : IsFreeList pm2 xs
    free2 = set_page-IsFreeList pm1 p _ pm2.mem xs allocated.1.rest h.free.distinct.0

    count_p : (pm2.pages p).pp_ref ≡ 1
    count_p = rw (==_refl p) (omega (arith, allocated.1.unreferenced))

    other_pages : (q : ℕ) → q ≢ p → pm2.pages q ≡ pm.pages q
    other_pages q ne = update_ne pm1.pages p q _ ne ∙ allocated.1.others q ne

    pub table2 : HasTable pm2 pgdir (page_at d 0) t
    table2 =
        Inserted-HasTable pm1 pgdir (page_at d k) (page_at d 0) t p
          (Allocated-HasTable pm pm1 pgdir (page_at d 0) t p xs allocated.1 h.not_dir h.table)

    -- The first page, and then the others
    pub Loaded-first :
        (ps rest : List ℕ) (pm' : Pmap)
        → Avoids p ps
        → Avoids t (p ∷ ps)
        → Loaded pm2 t (k + 1) ps rest pm'
        → Loaded pm t k (p ∷ ps) rest pm'
    Loaded-first ps rest pm' away off l = record {
      entries = (l.words t k off.1 (inr (inl (omega arith))) ∙ entry_k, l.entries);
      counted = (ap (λ (i : PageInfo). i.pp_ref) (l.pages p away) ∙ count_p, l.counted);
      free = l.free;
      size = l.size ∙ allocated.1.size;
      words = λ g j a o.
          l.words g j a.1 (still-Outside k (length ps) g t j o)
          ∙ other_words g j (λ e. a.0 (sym e)) (not_first k (length ps) g t j o);
      pages = λ q a. l.pages q a.1 ∙ other_pages q (λ e. a.0 (sym e));
    }
