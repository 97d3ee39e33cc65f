-- ===== src/Pmap/Mapping/Walk.antt =====
-- `pgdir_walk` of kern/pmap.c, case by case.
use challenge.Base.{
  ℕ, ◌%◌, ◌^◌, ◌<◌, ◌≡◌, refl, ◌≢◌, ◌∙◌, ap, bit_or, Bool, true, false, none, some, List, [], ◌∷◌,
  arith, ◌==◌, ◌⊎◌, write_other, write_same, ==_refl, ==_ne,
}
use challenge.Base.Bits.{bit_and_one, bit_or_digit, bit_or-high}
use challenge.Base.Run.{ok}
use challenge.Mmu.{pgnum, pdx, ptx, pte_addr, pte_p, pte_w, pte_u}
use challenge.Pmap.Pages.{Pmap, PtePtr, page2pa, kaddr, incref, write_word}
use challenge.Pmap.Tables.{is_present, pgdir_walk}
use challenge.Pmap.FreeList.Alloc.{
  IsFreeList, page_alloc-head, set_page-IsFreeList, page_alloc-empty,
}

-- The directory entry for `va` names the page table `t`, a page of memory other than the directory.
pub record HasTable (pm : Pmap) (pgdir va t : ℕ) : Type 0 where
  pub present : is_present (pm.mem pgdir (pdx va)) ≡ true
  pub entry : pgnum (pm.mem pgdir (pdx va)) ≡ t
  pub below : t < pm.npages
  pub apart : t ≢ pgdir

pub present_iff_odd : (x : ℕ) → is_present x ≡ (x % 2 == 1)
present_iff_odd x = ground (arith, bit_and_one x)

abbrev pub slot : ℕ → ℕ → PtePtr
slot t va = record { table = t; index = ptx va }

kaddr_ok : (pm : Pmap) (x t : ℕ) → pgnum x ≡ t → t < pm.npages → kaddr (pte_addr x) pm ≡ ok t pm
unfolding kaddr
kaddr_ok pm x t e lt = ground arith

-- Where the page table is present, `pgdir_walk` finds the slot of `va` and changes nothing.
pub pgdir_walk-found :
    (pm : Pmap) (pgdir va t : ℕ) (create : Bool)
    → is_present (pm.mem pgdir (pdx va)) ≡ true
    → pgnum (pm.mem pgdir (pdx va)) ≡ t
    → t < pm.npages
    → pgdir_walk pgdir va create pm ≡ ok (some (slot t va)) pm
unfolding pgdir_walk
pgdir_walk-found pm pgdir va t create present entry below =
    rw (present, kaddr_ok pm (pm.mem pgdir (pdx va)) t entry below) refl

pub pgdir_walk-present :
    {pm : Pmap} {pgdir va t : ℕ} (create : Bool)
    → HasTable pm pgdir va t
    → pgdir_walk pgdir va create pm ≡ ok (some (slot t va)) pm
pgdir_walk-present {pm} {pgdir} {va} {t} create h =
    pgdir_walk-found pm pgdir va t create h.present h.entry h.below

pub pgdir_walk-absent :
    {pm : Pmap} (pgdir va : ℕ)
    → is_present (pm.mem pgdir (pdx va)) ≡ false
    → pgdir_walk pgdir va false pm ≡ ok none pm
unfolding pgdir_walk
pgdir_walk-absent pgdir va h = rw h refl

pub pgdir_walk-exhausted :
    {pm : Pmap} (pgdir va : ℕ)
    → is_present (pm.mem pgdir (pdx va)) ≡ false
    → IsFreeList pm []
    → pgdir_walk pgdir va true pm ≡ ok none pm
unfolding pgdir_walk
pgdir_walk-exhausted {pm} pgdir va h f = rw (h, page_alloc-empty 1 pm f) refl

abbrev table_entry : ℕ → ℕ
table_entry p = bit_or (bit_or (bit_or (page2pa p) pte_p) pte_w) pte_u

table_entry_present : (p : ℕ) → is_present (table_entry p) ≡ true
table_entry_present p = ground (
  arith,
  present_iff_odd (table_entry p),
  bit_or_digit (bit_or (bit_or (page2pa p) pte_p) pte_w) pte_u,
  bit_or_digit (bit_or (page2pa p) pte_p) pte_w,
  bit_or_digit (page2pa p) pte_p,
)

table_entry_page : (p : ℕ) → p < 2 ^ 20 → pgnum (table_entry p) ≡ p
table_entry_page p h =
    bit_or-high 12 (bit_or (bit_or (page2pa p) pte_p) pte_w) pte_u refl
    ∙ bit_or-high 12 (bit_or (page2pa p) pte_p) pte_w refl
    ∙ bit_or-high 12 (page2pa p) pte_p refl
    ∙ omega arith

-- A new page table is entered in the directory, and it is empty.
pub record Fresh (pm : Pmap) (pgdir va t : ℕ) (ts : List ℕ) (pm' : Pmap) : Type 0 where
  pub runs : pgdir_walk pgdir va true pm ≡ ok (some (slot t va)) pm'
  pub has_table : HasTable pm' pgdir va t
  pub rest : IsFreeList pm' ts
  pub counted : (pm'.pages t).pp_ref ≡ 1
  pub empty : (i : ℕ) → pm'.mem t i ≡ 0
  pub memory : (f i : ℕ) → f ≢ t → ((f ≢ pgdir) ⊎ (i ≢ pdx va)) → pm'.mem f i ≡ pm.mem f i
  pub others : (q : ℕ) → q ≢ t → pm'.pages q ≡ pm.pages q
  pub size : pm'.npages ≡ pm.npages

module _ (pm : Pmap) (pgdir va t : ℕ) (ts : List ℕ)
    (missing : is_present (pm.mem pgdir (pdx va)) ≡ false) (f : IsFreeList pm (t ∷ ts))
    (apart : t ≢ pgdir) where
  abbrev walked : Pmap → Pmap
  walked pm1 = write_word pgdir (pdx va) (table_entry t) (incref t pm1)

  entry_written : (pm1 : Pmap) → (walked pm1).mem pgdir (pdx va) ≡ table_entry t
  entry_written pm1 = write_same pm1.mem pgdir (pdx va) (table_entry t)

  walked-HasTable : (pm1 : Pmap) → t < pm1.npages → t < 2 ^ 20 → HasTable (walked pm1) pgdir va t
  walked-HasTable pm1 lt small = record {
    present = ap is_present (entry_written pm1) ∙ table_entry_present t;
    entry = ap pgnum (entry_written pm1) ∙ table_entry_page t small;
    below = lt;
    apart = apart;
  }

  -- Where the page table is missing and a page is free, `pgdir_walk` with `create` set takes the
  -- first free page, counts one reference to it, clears it and enters it in the directory.
  pub pgdir_walk-Fresh : (pm' : Pmap) × Fresh pm pgdir va t ts pm'
  unfolding pgdir_walk
  pgdir_walk-Fresh =
      let (pm1, got) = page_alloc-head 1 pm t ts f in
      let lt : t < pm1.npages = omega (arith, got.size, f.idle.0.0) in
      let small : t < 2 ^ 20 = omega (arith, f.fits, f.idle.0.0) in
      let table = walked-HasTable pm1 lt small in
      (
        walked pm1,
        record {
          runs = rw (missing, got.runs, kaddr_ok (walked pm1) _ t table.entry table.below) refl;
          has_table = table;
          rest = set_page-IsFreeList pm1 t _ (walked pm1).mem ts got.rest f.distinct.0;
          counted = rw (==_refl t, got.unreferenced) refl;
          empty = λ i. rw (==_ne t pgdir apart) (got.zeroed (λ e. absurd (omega arith)) i);
          memory =
              λ g i ne other. write_other pm1.mem pgdir (pdx va) _ g i other ∙ got.memory g i ne;
          others = λ q ne. rw (==_ne q t ne) (got.others q ne);
          size = got.size;
        },
      )
