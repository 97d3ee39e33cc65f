-- ===== src/Pmap/Mapping/Edit.antt =====
-- `page_lookup`, `page_remove` and `page_insert` of kern/pmap.c, where the page table is there.
use challenge.Base.{
  ℕ, ◌+◌, ◌-◌, ◌%◌, ◌^◌, ◌<◌, ◌≡◌, refl, ◌≢◌, sym, ap, true, false, none, some, List, ◌∷◌, arith,
  ◌==◌, ◌⊎◌, inl, inr, update, write_other, write_same, Bool-cases,
}
use challenge.Base.Run.{ok}
use challenge.Mmu.{pgnum, pdx, ptx, pte_addr}
use challenge.Pmap.Pages.{Pmap, pa2page, write_word}
use challenge.Pmap.Tables.{is_present, Current, page_lookup, page_remove, tlb_invalidate}
use challenge.Pmap.FreeList.Free.{page_decref-Dropped}
use challenge.Pmap.Mapping.Walk.{HasTable, slot, pgdir_walk-present, pgdir_walk-absent}

-- The entry of `va` in the page table `t`.
abbrev pub entry_of : Pmap → ℕ → ℕ → ℕ
entry_of pm t va = pm.mem t (ptx va)

-- The page `q` is mapped at `va`, through the page table `t`.
pub record Mapped (pm : Pmap) (pgdir va t q : ℕ) : Type 0 where
  pub table : HasTable pm pgdir va t
  pub present : is_present (entry_of pm t va) ≡ true
  pub page : pgnum (entry_of pm t va) ≡ q
  pub below : q < pm.npages

pa2page_ok : (pm : Pmap) (x q : ℕ) → pgnum x ≡ q → q < pm.npages → pa2page (pte_addr x) pm ≡ ok q pm
unfolding pa2page
pa2page_ok pm x q e lt = ground arith

module _ {pm : Pmap} {pgdir va t : ℕ} where
  pub page_lookup-Mapped :
      {q : ℕ} → Mapped pm pgdir va t q → page_lookup pgdir va pm ≡ ok (some q, some (slot t va)) pm
  unfolding page_lookup
  page_lookup-Mapped {q} h =
      rw
        (
          pgdir_walk-present false h.table,
          h.present,
          pa2page_ok pm (entry_of pm t va) q h.page h.below,
        )
        refl

  pub page_lookup-unmapped :
      HasTable pm pgdir va t
      → is_present (entry_of pm t va) ≡ false
      → page_lookup pgdir va pm ≡ ok (none, some (slot t va)) pm
  unfolding page_lookup
  page_lookup-unmapped h e = rw (pgdir_walk-present false h, e) refl

pub page_lookup-no_table :
    {pm : Pmap} (pgdir va : ℕ)
    → is_present (pm.mem pgdir (pdx va)) ≡ false
    → page_lookup pgdir va pm ≡ ok (none, none) pm
unfolding page_lookup
page_lookup-no_table pgdir va e = rw (pgdir_walk-absent pgdir va e) refl

-- The word of the slot of `va` changes to `v`; every other word stays.
pub record Rewritten (t va v : ℕ) (pm pm' : Pmap) : Type 0 where
  pub written : entry_of pm' t va ≡ v
  pub rest : (f i : ℕ) → (f ≢ t) ⊎ (i ≢ ptx va) → pm'.mem f i ≡ pm.mem f i
  pub size : pm'.npages ≡ pm.npages

pub written_word :
    (pm pm' : Pmap) (t va v : ℕ)
    → pm'.mem ≡ update pm.mem t (update (pm.mem t) (ptx va) v)
    → pm'.npages ≡ pm.npages
    → Rewritten t va v pm pm'
written_word pm pm' t va v e n = record {
  written = rw e (write_same pm.mem t (ptx va) v);
  rest = λ f i o. rw e (write_other pm.mem t (ptx va) v f i o);
  size = n;
}

pub Rewritten-HasTable :
    {pm pm' : Pmap} {pgdir va t v : ℕ}
    → Rewritten t va v pm pm'
    → HasTable pm pgdir va t
    → HasTable pm' pgdir va t
Rewritten-HasTable {pm} {pm'} {pgdir} {va} r h =
    let same : pm'.mem pgdir (pdx va) ≡ pm.mem pgdir (pdx va) =
      r.rest pgdir (pdx va) (inl (λ e. h.apart (sym e))) in
    record {
      present = rw same h.present;
      entry = rw same h.entry;
      below = omega (arith, r.size, h.below);
      apart = h.apart;
    }

-- What `page_remove` leaves after it has unmapped `q` from `va`.
pub record Removed (cur : Current) (pgdir va t q : ℕ) (pm pm' : Pmap) : Type 0 where
  pub runs : page_remove cur pgdir va pm ≡ ok tt pm'
  pub cleared : Rewritten t va 0 pm pm'
  pub gone : page_lookup pgdir va pm' ≡ ok (none, some (slot t va)) pm'
  pub count : (pm'.pages q).pp_ref ≡ ((pm.pages q).pp_ref + 2 ^ 16 - 1) % 2 ^ 16
  pub others : (p : ℕ) → p ≢ q → pm'.pages p ≡ pm.pages p

flush_runs :
    (cur : Current) (pgdir va : ℕ) (pm : Pmap)
    → (l : List ℕ) × (tlb_invalidate cur pgdir va pm ≡ ok tt (record pm { flushed = l }))
unfolding tlb_invalidate
flush_runs none pgdir va pm = (va ∷ pm.flushed, refl)
flush_runs (some none) pgdir va pm = (pm.flushed, refl)
flush_runs (some (some d)) pgdir va pm = elim (Bool-cases (d == pgdir)) [
  | inl e ↦ (va ∷ pm.flushed, rw e refl)
  | inr e ↦ (pm.flushed, rw e refl)
]

-- `page_remove` of a mapped page that is not linked in the free list clears its entry, drops one
-- reference to the page and changes no other entry and no other page; afterwards nothing is mapped
-- at the address.
pub page_remove-Mapped :
    (cur : Current) {pm : Pmap} {pgdir va t q : ℕ}
    → Mapped pm pgdir va t q
    → (pm.pages q).pp_link ≡ none
    → (pm' : Pmap) × Removed cur pgdir va t q pm pm'
unfolding page_remove
page_remove-Mapped cur {pm} {pgdir} {va} {t} {q} h unlinked =
    let (pm1, dropped) = page_decref-Dropped q pm unlinked in
    let pm2 : Pmap = write_word t (ptx va) 0 pm1 in
    let (l, flush) = flush_runs cur pgdir va pm2 in
    let cleared =
      written_word pm (record pm2 { flushed = l }) t va 0 (rw dropped.memory refl) dropped.size in
    (
      record pm2 { flushed = l },
      record {
        runs = rw (page_lookup-Mapped h, h.present, dropped.runs, flush) refl;
        cleared = cleared;
        gone =
            page_lookup-unmapped (Rewritten-HasTable cleared h.table)
              (ap is_present cleared.written);
        count = dropped.count;
        others = dropped.others;
      },
    )
