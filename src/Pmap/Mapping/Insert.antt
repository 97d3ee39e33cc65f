-- ===== src/Pmap/Mapping/Insert.antt =====
-- `page_insert` of kern/pmap.c: what it maps, what it counts, and what it leaves alone.
use challenge.Base.{
  ℕ, ◌+◌, ◌-◌, ◌/◌, ◌%◌, ◌^◌, ◌≤◌, ◌<◌, ◌≡◌, refl, ◌≢◌, sym, ◌∙◌, ap, bit_and, bit_or, true, false,
  none, some, List, [], ◌∷◌, arith, ◌==◌, inl, inr, write_other, write_same, ==_refl, ==_ne,
  Bool-cases, ==_iff, subst,
}
use challenge.Base.Bits.{bit_or_digit, bit_or-high, bit_or-one_odd, bit_or-one_half, bit_and_two}
use challenge.Base.Run.{ok}
use challenge.Mmu.{pgnum, pdx, ptx, pte_addr, pte_p, pte_w}
use challenge.Pmap.Pages.{PageInfo, Pmap, PtePtr, page2pa, incref, write_word}
use challenge.Pmap.Tables.{
  is_present, leaf_entry, pgdir_walk, Current, page_lookup, page_insert, Errno,
}
use challenge.Pmap.Mapping.Walk.{HasTable, slot, pgdir_walk-present, present_iff_odd}
use challenge.Pmap.FreeList.Alloc.{IsFreeList, Avoids, set_page-IsFreeList}
use challenge.Pmap.Mapping.Walk.{Fresh, pgdir_walk-Fresh, pgdir_walk-exhausted}
use challenge.Pmap.Mapping.Edit.{
  entry_of, Mapped, Rewritten, page_lookup-Mapped, page_remove-Mapped, written_word,
  Rewritten-HasTable,
}

-- The entry that `page_insert` writes is present, names the page, and has the caller's PTE_W.
pub leaf_entry_present : (p perm : ℕ) → is_present (leaf_entry p perm) ≡ true
leaf_entry_present p perm = ground (
  arith,
  present_iff_odd (leaf_entry p perm),
  bit_or-one_odd (bit_or (pte_addr (page2pa p)) perm),
)

pub leaf_entry_page : (p perm : ℕ) → p < 2 ^ 20 → perm < 2 ^ 12 → pgnum (leaf_entry p perm) ≡ p
leaf_entry_page p perm h k =
    bit_or-high 12 (bit_or (pte_addr (page2pa p)) perm) pte_p refl
    ∙ bit_or-high 12 (pte_addr (page2pa p)) perm (omega arith)
    ∙ omega arith

pub leaf_entry_writable : (p perm : ℕ) → bit_and (leaf_entry p perm) pte_w ≡ bit_and perm pte_w
leaf_entry_writable p perm =
    let a = pte_addr (page2pa p) in
    omega (
      arith,
      bit_and_two (leaf_entry p perm),
      bit_and_two perm,
      bit_or-one_half (bit_or a perm),
      bit_or_digit a perm,
      bit_or_digit (a / 2) (perm / 2),
    )

-- What a successful `page_insert` of `p` at `va` leaves.
pub record Inserted (cur : Current) (pgdir va t p perm : ℕ) (pm pm' : Pmap) : Type 0 where
  pub runs : page_insert cur pgdir p va perm pm ≡ ok none pm'
  pub entry : Rewritten t va (leaf_entry p perm) pm pm'
  pub found : page_lookup pgdir va pm' ≡ ok (some p, some (slot t va)) pm'
  pub mapped : Mapped pm' pgdir va t p

-- The state after the page is counted and its entry written.
abbrev pub inserted_at : ℕ → ℕ → ℕ → ℕ → Pmap → Pmap
inserted_at t va p perm pm = write_word t (ptx va) (leaf_entry p perm) (incref p pm)

found_entry :
    {pm pm' : Pmap} {pgdir va t : ℕ} (p perm : ℕ)
    → HasTable pm pgdir va t
    → Rewritten t va (leaf_entry p perm) pm pm'
    → p < 2 ^ 20
    → p < pm'.npages
    → perm < 2 ^ 12
    → Mapped pm' pgdir va t p
found_entry p perm h r small lt low = record {
  table = Rewritten-HasTable r h;
  present = ap is_present r.written ∙ leaf_entry_present p perm;
  page = ap pgnum r.written ∙ leaf_entry_page p perm small low;
  below = lt;
}

module _ (cur : Current) {pm : Pmap} {pgdir va t : ℕ} (p perm : ℕ) (table : HasTable pm pgdir va t)
    (small : pm.npages ≤ 2 ^ 20) (lt : p < pm.npages) (low : perm < 2 ^ 12) where
  -- Where nothing is mapped at `va`, the page gains one reference and the entry is written.
  pub page_insert-unmapped :
      is_present (entry_of pm t va) ≡ false
      → Inserted cur pgdir va t p perm pm (inserted_at t va p perm pm)
  unfolding page_insert
  page_insert-unmapped e =
      let pm' = inserted_at t va p perm pm in
      let entry = written_word pm pm' t va (leaf_entry p perm) refl refl in
      let mapped = found_entry p perm table entry (omega arith) lt low in
      record {
        runs = rw (pgdir_walk-present true table, e) refl;
        entry = entry;
        found = page_lookup-Mapped mapped;
        mapped = mapped;
      }

incref-Mapped :
    {pm : Pmap} {pgdir va t q : ℕ} (p : ℕ)
    → Mapped pm pgdir va t q
    → Mapped (incref p pm) pgdir va t q
incref-Mapped p h = record {
  table = record {
    present = h.table.present;
    entry = h.table.entry;
    below = h.table.below;
    apart = h.table.apart;
  };
  present = h.present;
  page = h.page;
  below = h.below;
}

incref-link : (pm : Pmap) (p q : ℕ) → ((incref p pm).pages q).pp_link ≡ (pm.pages q).pp_link
incref-link pm p q = elim (Bool-cases (q == p)) [
  | inl e ↦ rw e (ap (λ (x : ℕ). (pm.pages x).pp_link) (sym ((==_iff q p).0 e)))
  | inr e ↦ rw e refl
]

-- Where `q` is mapped at `va` before, `q` is unmapped first: it loses one reference and `p` gains
-- one, and a page that is inserted again where it is mapped keeps its count.
pub record Recounted (p q : ℕ) (pm pm' : Pmap) : Type 0 where
  pub gains : p ≢ q → (pm'.pages p).pp_ref ≡ ((pm.pages p).pp_ref + 1) % 2 ^ 16
  pub loses : p ≢ q → (pm'.pages q).pp_ref ≡ ((pm.pages q).pp_ref + 2 ^ 16 - 1) % 2 ^ 16
  pub keeps : p ≡ q → (pm.pages p).pp_ref < 2 ^ 16 → (pm'.pages p).pp_ref ≡ (pm.pages p).pp_ref
  pub others : (x : ℕ) → x ≢ p → x ≢ q → pm'.pages x ≡ pm.pages x

incref_count :
    (pm : Pmap) (p : ℕ) → ((incref p pm).pages p).pp_ref ≡ ((pm.pages p).pp_ref + 1) % 2 ^ 16
incref_count pm p = rw (==_refl p) refl

recount :
    (pm pm' : Pmap) (p q : ℕ)
    → (pm'.pages q).pp_ref ≡ (((incref p pm).pages q).pp_ref + 2 ^ 16 - 1) % 2 ^ 16
    → ((x : ℕ) → x ≢ q → pm'.pages x ≡ (incref p pm).pages x)
    → Recounted p q pm pm'
recount pm pm' p q count others = record {
  gains = λ ne. ap (λ (r : PageInfo). r.pp_ref) (others p ne) ∙ incref_count pm p;
  loses = λ ne. count ∙ rw (==_ne q p (λ e. ne (sym e))) refl;
  keeps = λ e small.
      let there : (pm'.pages q).pp_ref ≡ (((incref p pm).pages q).pp_ref + 2 ^ 16 - 1) % 2 ^ 16 =
        count in
      let here =
        subst (λ x. (pm'.pages x).pp_ref ≡ (((incref p pm).pages x).pp_ref + 2 ^ 16 - 1) % 2 ^ 16)
          (sym e) there in
      omega (arith, here, incref_count pm p);
  others = λ x a b. others x b ∙ rw (==_ne x p a) refl;
}

module _ (cur : Current) {pm : Pmap} {pgdir va t q : ℕ} (p perm : ℕ) (old : Mapped pm pgdir va t q)
    (small : pm.npages ≤ 2 ^ 20) (lt : p < pm.npages) (low : perm < 2 ^ 12) where
  -- With at most 2 ^ 20 pages and permissions below 2 ^ 12, where a page `q` with no link is
  -- mapped at `va`, `page_insert` of `p` maps `p` there instead: `q` loses one reference and `p`
  -- gains one, no other page changes, and a page that is inserted again where it is mapped keeps
  -- its count.
  pub page_insert-replaced :
      (pm.pages q).pp_link ≡ none
      → (pm' : Pmap) × Inserted cur pgdir va t p perm pm pm' × Recounted p q pm pm'
  unfolding page_insert
  page_insert-replaced unlinked =
      let (pm1, removed) =
        page_remove-Mapped cur (incref-Mapped p old) (incref-link pm p q ∙ unlinked) in
      let pm' = write_word t (ptx va) (leaf_entry p perm) pm1 in
      let entry : Rewritten t va (leaf_entry p perm) pm pm' = record {
        written = write_same pm1.mem t (ptx va) (leaf_entry p perm);
        rest = λ f i o.
            write_other pm1.mem t (ptx va) (leaf_entry p perm) f i o ∙ removed.cleared.rest f i o;
        size = removed.cleared.size;
      } in
      let mapped =
        found_entry p perm old.table entry (omega arith) (omega (arith, removed.cleared.size))
          low in
      (
        pm',
        record {
          runs = rw (pgdir_walk-present true old.table, old.present, removed.runs) refl;
          entry = entry;
          found = page_lookup-Mapped mapped;
          mapped = mapped;
        },
        recount pm pm' p q removed.count removed.others,
      )

-- Where the page table is missing, one free page becomes the page table; with no free page the call
-- fails with -E_NO_MEM and nothing has changed.
module _ (cur : Current) (pm : Pmap) (pgdir va p perm : ℕ)
    (missing : is_present (pm.mem pgdir (pdx va)) ≡ false) where
  after_walk :
      (e : PtePtr) (pm1 : Pmap)
      → pgdir_walk pgdir va true pm ≡ ok (some e) pm1
      → pgdir_walk pgdir va true pm1 ≡ ok (some e) pm1
      → page_insert cur pgdir p va perm pm ≡ page_insert cur pgdir p va perm pm1
  unfolding page_insert
  after_walk e pm1 h k = rw (h, k) refl

  -- Where the page table for `va` is missing, the first free page `t` is not the directory, `p` is
  -- not among the other free pages, and the permissions are below 2 ^ 12, `page_insert` makes `t`
  -- the page table, maps `p` by it at `va` and succeeds, and the rest of the free list stays.
  pub page_insert-Fresh :
      (t : ℕ) (ts : List ℕ)
      → IsFreeList pm (t ∷ ts)
      → t ≢ pgdir
      → Avoids p ts
      → p < pm.npages
      → perm < 2 ^ 12
      → (pm1 pm' : Pmap) × Fresh pm pgdir va t ts pm1
        × Inserted cur pgdir va t p perm pm1 pm'
        × (page_insert cur pgdir p va perm pm ≡ ok none pm')
        × IsFreeList pm' ts
  page_insert-Fresh t ts f apart away lt low =
      let (pm1, fresh) = pgdir_walk-Fresh pm pgdir va t ts missing f apart in
      let pm' = inserted_at t va p perm pm1 in
      let ins : Inserted cur pgdir va t p perm pm1 pm' =
        page_insert-unmapped cur p perm fresh.has_table (omega (arith, f.fits, fresh.size))
          (omega (arith, fresh.size)) low (ap is_present (fresh.empty (ptx va))) in
      (
        pm1,
        pm',
        fresh,
        ins,
        after_walk (slot t va) pm1 fresh.runs (pgdir_walk-present true fresh.has_table) ∙ ins.runs,
        set_page-IsFreeList pm1 p _ pm'.mem ts fresh.rest away,
      )

  pub page_insert-no_mem :
      IsFreeList pm [] → page_insert cur pgdir p va perm pm ≡ ok (some Errno.no_mem) pm
  unfolding page_insert
  page_insert-no_mem f = rw (pgdir_walk-exhausted pgdir va missing f) refl
